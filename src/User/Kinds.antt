-- ===== src/User/Kinds.antt =====
-- TomatLib/tomato/syscalls.h: the numbers of the system calls, which the kernel and the programs share.
use tomat_os_old.Common.{ℕ}

-- `tomato_syscall_kind_t`, less the last one, SYSCALL_END, which stands for no call.
pub data SyscallKind : Type 0 where
  syscall_start syscall_term_write syscall_term_clear syscall_term_set_text_color
        syscall_term_set_background_color syscall_term_get_text_color
        syscall_term_get_background_color syscall_term_set_cursor_pos syscall_term_get_cursor_x
        syscall_term_get_cursor_y syscall_term_scroll syscall_term_width syscall_term_height
        syscall_term_clear_line syscall_term_redirect syscall_term_current syscall_term_native
        syscall_window_create syscall_window_delete syscall_window_write syscall_window_clear
        syscall_window_set_text_color syscall_window_set_background_color
        syscall_window_get_text_color syscall_window_get_background_color
        syscall_window_get_cursor_x syscall_window_get_cursor_y syscall_window_set_cursor_pos
        syscall_window_scroll syscall_window_width syscall_window_height syscall_window_clear_line
        syscall_window_set_visible syscall_window_redraw syscall_window_get_x syscall_window_get_y
        syscall_window_restore_cursor syscall_window_reposition syscall_heap_allocate
        syscall_heap_reallocate syscall_heap_free syscall_heap_get_ptr_size
        syscall_heap_get_used_size syscall_os_pull_event syscall_os_queue_event
        syscall_os_start_timer syscall_os_cancel_timer syscall_os_process_kill :
      SyscallKind

-- The value of each in C.
abbrev pub number : SyscallKind → ℕ
number syscall_start = 0
number syscall_term_write = 1
number syscall_term_clear = 2
number syscall_term_set_text_color = 3
number syscall_term_set_background_color = 4
number syscall_term_get_text_color = 5
number syscall_term_get_background_color = 6
number syscall_term_set_cursor_pos = 7
number syscall_term_get_cursor_x = 8
number syscall_term_get_cursor_y = 9
number syscall_term_scroll = 10
number syscall_term_width = 11
number syscall_term_height = 12
number syscall_term_clear_line = 13
number syscall_term_redirect = 14
number syscall_term_current = 15
number syscall_term_native = 16
number syscall_window_create = 17
number syscall_window_delete = 18
number syscall_window_write = 19
number syscall_window_clear = 20
number syscall_window_set_text_color = 21
number syscall_window_set_background_color = 22
number syscall_window_get_text_color = 23
number syscall_window_get_background_color = 24
number syscall_window_get_cursor_x = 25
number syscall_window_get_cursor_y = 26
number syscall_window_set_cursor_pos = 27
number syscall_window_scroll = 28
number syscall_window_width = 29
number syscall_window_height = 30
number syscall_window_clear_line = 31
number syscall_window_set_visible = 32
number syscall_window_redraw = 33
number syscall_window_get_x = 34
number syscall_window_get_y = 35
number syscall_window_restore_cursor = 36
number syscall_window_reposition = 37
number syscall_heap_allocate = 38
number syscall_heap_reallocate = 39
number syscall_heap_free = 40
number syscall_heap_get_ptr_size = 41
number syscall_heap_get_used_size = 42
number syscall_os_pull_event = 43
number syscall_os_queue_event = 44
number syscall_os_start_timer = 45
number syscall_os_cancel_timer = 46
number syscall_os_process_kill = 47
