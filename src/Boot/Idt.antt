-- ===== src/Boot/Idt.antt =====
-- TomatKernel/boot/interrupts/idt.h, idt.c and pic.c: the interrupt descriptors, and the messages to the
-- interrupt controllers. The handlers are assembly; `address` says where each stands.
pub mod Gates
mod Tests
use tomat_os_old.Common.{ℕ, ◌+◌, ◌*◌, ◌%◌, ◌^◌, List, [], ◌∷◌, leb, if◌then◌else◌, update, shr}
use tomat_os_old.Drivers.Ps2.{Ports}

-- `idt_gate_t`
pub record IdtGate : Type 0 where
  pub handler_address_low : ℕ
  pub selector : ℕ
  pub unused : ℕ
  pub gate_type : ℕ
  pub storage_segment : ℕ
  pub dpl : ℕ
  pub present : ℕ
  pub handler_address_high : ℕ

-- The 64 bits of a gate.
pub pack : IdtGate → ℕ
pack g =
    g.handler_address_low
    + 2 ^ 16
      * (g.selector
          + 2 ^ 16
            * (g.unused
                + 2 ^ 8
                  * (g.gate_type
                      + 16
                        * (g.storage_segment
                            + 2 * (g.dpl + 4 * (g.present + 2 * g.handler_address_high))))))

abbrev pub idt_interrupt_gate : ℕ
idt_interrupt_gate = 0xE

-- GDT_SEGMENT_CODE
abbrev pub code_selector : ℕ
code_selector = 8

abbrev pub irq_offset : ℕ
irq_offset = 32

abbrev pub irq_syscall : ℕ
irq_syscall = 0x80

-- The handlers of isr.asm, declared in isr.h.
pub data Handler : Type 0 where
  exception_interrupt interrupt_request : ℕ → Handler
  syscall_interrupt : Handler

-- What `idt_set_entry` writes.
pub gate : (base ring : ℕ) → IdtGate
gate base ring = record {
  handler_address_low = base % 2 ^ 16;
  handler_address_high = shr base 16 % 2 ^ 16;
  present = 1;
  dpl = ring;
  storage_segment = 0;
  gate_type = idt_interrupt_gate;
  unused = 0;
  selector = code_selector;
}

pub idt_set_entry : (index base ring : ℕ) → (ℕ → IdtGate) → ℕ → IdtGate
idt_set_entry index base ring gates = update gates index (gate base ring)

abbrev pub no_gate : IdtGate
no_gate = record {
  handler_address_low = 0;
  selector = 0;
  unused = 0;
  gate_type = 0;
  storage_segment = 0;
  dpl = 0;
  present = 0;
  handler_address_high = 0;
}

-- The calls of `idt_set_entry` in `idt_init`.
abbrev pub idt_entries : List (ℕ × Handler × ℕ)
idt_entries =
    (0x00, exception_interrupt 0x00, 0)
    ∷ (0x01, exception_interrupt 0x01, 3)
    ∷ (0x02, exception_interrupt 0x02, 0)
    ∷ (0x03, exception_interrupt 0x03, 3)
    ∷ (0x04, exception_interrupt 0x04, 0)
    ∷ (0x05, exception_interrupt 0x05, 0)
    ∷ (0x06, exception_interrupt 0x06, 0)
    ∷ (0x07, exception_interrupt 0x07, 0)
    ∷ (0x08, exception_interrupt 0x08, 0)
    ∷ (0x09, exception_interrupt 0x09, 0)
    ∷ (0x0A, exception_interrupt 0x0A, 0)
    ∷ (0x0B, exception_interrupt 0x0B, 0)
    ∷ (0x0C, exception_interrupt 0x0C, 0)
    ∷ (0x0D, exception_interrupt 0x0D, 0)
    ∷ (0x0E, exception_interrupt 0x0E, 0)
    ∷ (0x0F, exception_interrupt 0x0F, 0)
    ∷ (0x10, exception_interrupt 0x10, 0)
    ∷ (0x11, exception_interrupt 0x11, 0)
    ∷ (0x12, exception_interrupt 0x12, 0)
    ∷ (0x13, exception_interrupt 0x13, 0)
    ∷ (0x14, exception_interrupt 0x14, 0)
    ∷ (0x15, exception_interrupt 0x15, 0)
    ∷ (0x16, exception_interrupt 0x16, 0)
    ∷ (0x17, exception_interrupt 0x17, 0)
    ∷ (0x18, exception_interrupt 0x18, 0)
    ∷ (0x19, exception_interrupt 0x19, 0)
    ∷ (0x1A, exception_interrupt 0x1A, 0)
    ∷ (0x1B, exception_interrupt 0x1B, 0)
    ∷ (0x1C, exception_interrupt 0x1C, 0)
    ∷ (0x1D, exception_interrupt 0x1D, 0)
    ∷ (0x1E, exception_interrupt 0x1E, 0)
    ∷ (0x1F, exception_interrupt 0x1F, 0)
    ∷ (0x00 + irq_offset, interrupt_request 0x00, 0)
    ∷ (0x01 + irq_offset, interrupt_request 0x01, 0)
    ∷ (0x02 + irq_offset, interrupt_request 0x02, 0)
    ∷ (0x03 + irq_offset, interrupt_request 0x03, 0)
    ∷ (0x04 + irq_offset, interrupt_request 0x04, 0)
    ∷ (0x05 + irq_offset, interrupt_request 0x05, 0)
    ∷ (0x06 + irq_offset, interrupt_request 0x06, 0)
    ∷ (0x07 + irq_offset, interrupt_request 0x07, 0)
    ∷ (0x08 + irq_offset, interrupt_request 0x08, 0)
    ∷ (0x09 + irq_offset, interrupt_request 0x09, 0)
    ∷ (0x0A + irq_offset, interrupt_request 0x0A, 0)
    ∷ (0x0B + irq_offset, interrupt_request 0x0B, 0)
    ∷ (0x0C + irq_offset, interrupt_request 0x0C, 0)
    ∷ (0x0D + irq_offset, interrupt_request 0x0D, 0)
    ∷ (0x0E + irq_offset, interrupt_request 0x0E, 0)
    ∷ (0x0F + irq_offset, interrupt_request 0x0F, 0)
    ∷ (irq_syscall, syscall_interrupt, 3)
    ∷ []

pub set_entries : (address : Handler → ℕ) → List (ℕ × Handler × ℕ) → (ℕ → IdtGate) → ℕ → IdtGate
set_entries address [] gates = gates
set_entries address ((index, handler, ring) ∷ entries) gates =
    set_entries address entries (idt_set_entry index (address handler) ring gates)

-- The gates after `idt_init`, which clears them first.
pub idt_gates : (address : Handler → ℕ) → ℕ → IdtGate
idt_gates address = set_entries address idt_entries (λ i. no_gate)

abbrev pub pic_master_command_port : ℕ
pic_master_command_port = 0x20

abbrev pub pic_master_data_port : ℕ
pic_master_data_port = 0x21

abbrev pub pic_slave_command_port : ℕ
pic_slave_command_port = 0xA0

abbrev pub pic_slave_data_port : ℕ
pic_slave_data_port = 0xA1

module _ {S : Type 0} (ports : Ports S) where
  pub out_all : List (ℕ × ℕ) → S → S
  out_all [] s = s
  out_all ((port, value) ∷ writes) s = out_all writes (ports.outb port value s)

  pub pic_init : S → S
  pic_init = out_all (
      (pic_master_command_port, 0x11)
      ∷ (pic_slave_command_port, 0x11)
      ∷ (pic_master_data_port, irq_offset)
      ∷ (pic_slave_data_port, irq_offset + 8)
      ∷ (pic_master_data_port, 0x04)
      ∷ (pic_master_data_port, 0x02)
      ∷ (pic_master_data_port, 0x01)
      ∷ (pic_master_data_port, 0x01)
      ∷ (pic_master_data_port, 0x00)
      ∷ (pic_master_data_port, 0x00)
      ∷ [])

  unfoldable pub irq_ack : (irq : ℕ) → S → S
  irq_ack irq s =
      let s = ports.outb pic_master_command_port 0x20 s in
      if leb 40 irq then ports.outb pic_slave_command_port 0x20 s else s
