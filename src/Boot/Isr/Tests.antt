-- ===== src/Boot/Isr/Tests.antt =====
-- The screen of a page fault.
use tomat_os_old.Common.{ℕ, ◌≡◌, true, false, [], ◌∷◌, done, arith}
use tomat_os_old.Kernel.{Registers, Kernel, Process, running, any}
use tomat_os_old.Klibc.Strings.{Bytes}
use tomat_os_old.Graphics.Window.{Cell}
use tomat_os_old.Graphics.Terminal.{Terminal, native_window, term_init}
use tomat_os_old.Graphics.Terminal.Ready.{IsReady, term_init-IsReady}
use tomat_os_old.Boot.Isr.Exception.{kernel_exception_handler}
use tomat_os_old.Boot.Isr.Exception.Screen.{kernel_exception_handler-IsReady}

abbrev video : ℕ → Cell
video i = record { chr = 32; fg = 7; bg = 0 }

-- Before `term_init`; every address but that of the native window holds a window of one cell.
abbrev before : Terminal
before = record {
  desktop = record {
    window = λ w. record (native_window video 1) { width = 1; height = 1 };
    native = 0x200000;
    kernel_start = 0x100000;
    kernel_end = 0x300000;
    vga_cursor = 0;
  };
  current = 0;
}

abbrev page_fault : Registers
page_fault = record {
  ds = 0;
  edi = 0;
  esi = 0;
  ebp = 0;
  esp = 0;
  ebx = 0;
  edx = 0;
  ecx = 0;
  eax = 0;
  int_no = 0x0E;
  code = 6;
  eip = 0x101234;
  cs = 0;
  eflags = 0;
  useresp = 0;
  ss = 0;
}

-- A running process with the uid 0.
abbrev process : Process
process = record {
  pd = 0;
  status = running;
  main = 0;
  registers = page_fault;
  current_event = record { type = any; data0 = 0; data1 = 0; data2 = 0; data3 = 0 };
  stack = 0;
  events = [];
  user = 255;
  uid = 0;
  suspended_time = 0;
  running_time = 0;
  priority = 0;
  core = false;
  foreground = true;
  started = true;
}

abbrev kernel : Kernel
kernel = record {
  processes = process ∷ [];
  last_uid = 0;
  can_update = true;
  enabled = true;
  updates = 0;
  timers = [];
  last_id = 0;
  directory = 0;
  freed = [];
  event_address = λ i. i;
}

abbrev no_bytes : Bytes
no_bytes i = 0

screen_example :
    (s' : Terminal) × (kernel_exception_handler 1 4096 no_bytes page_fault kernel
        (term_init video 2000 before)
      ≡ done s')
    × IsReady s'
screen_example =
    kernel_exception_handler-IsReady 0 4096 no_bytes (omega arith) page_fault kernel
      (term_init video 2000 before) (omega arith) (omega arith) (omega arith, tt) (omega arith, tt)
      (term_init-IsReady video 2000 before (omega arith) (omega arith) (omega arith))
