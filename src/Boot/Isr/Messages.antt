-- ===== src/Boot/Isr/Messages.antt =====
-- The texts of isr.c, lines 21-121, as lists of ASCII codes; each text stands above its list.
use tomat_os_old.Common.{ℕ, List, [], ◌∷◌}

-- Exception:
abbrev pub exception_colon : List ℕ
exception_colon = 69 ∷ 120 ∷ 99 ∷ 101 ∷ 112 ∷ 116 ∷ 105 ∷ 111 ∷ 110 ∷ 58 ∷ 32 ∷ []

-- \n
abbrev pub new_line : List ℕ
new_line = 10 ∷ []

-- ERROR CODE: 0x
abbrev pub error_code : List ℕ
error_code = 69 ∷ 82 ∷ 82 ∷ 79 ∷ 82 ∷ 32 ∷ 67 ∷ 79 ∷ 68 ∷ 69 ∷ 58 ∷ 32 ∷ 48 ∷ 120 ∷ []

-- 0
abbrev pub nought : List ℕ
nought = 48 ∷ []

-- Process:\n
abbrev pub process_line : List ℕ
process_line = 80 ∷ 114 ∷ 111 ∷ 99 ∷ 101 ∷ 115 ∷ 115 ∷ 58 ∷ 10 ∷ []

-- \tUID:
abbrev pub uid_colon : List ℕ
uid_colon = 9 ∷ 85 ∷ 73 ∷ 68 ∷ 58 ∷ 32 ∷ []

-- NO RUNNING PROCESS
abbrev pub no_process : List ℕ
no_process =
    78 ∷ 79 ∷ 32 ∷ 82 ∷ 85 ∷ 78 ∷ 78 ∷ 73 ∷ 78 ∷ 71 ∷ 32 ∷ 80 ∷ 82 ∷ 79 ∷ 67 ∷ 69 ∷ 83 ∷ 83 ∷ []

-- \tUser:
abbrev pub user_colon : List ℕ
user_colon = 9 ∷ 85 ∷ 115 ∷ 101 ∷ 114 ∷ 58 ∷ 32 ∷ []

-- Registers: \n
abbrev pub registers_line : List ℕ
registers_line = 82 ∷ 101 ∷ 103 ∷ 105 ∷ 115 ∷ 116 ∷ 101 ∷ 114 ∷ 115 ∷ 58 ∷ 32 ∷ 10 ∷ []

-- EIP:
abbrev pub eip_colon : List ℕ
eip_colon = 69 ∷ 73 ∷ 80 ∷ 58 ∷ 32 ∷ []

-- EXCEPTION_DIVIDE_BY_ZERO
abbrev message_0 : List ℕ
message_0 =
    69 ∷ 88 ∷ 67 ∷ 69 ∷ 80 ∷ 84 ∷ 73 ∷ 79 ∷ 78 ∷ 95 ∷ 68 ∷ 73 ∷ 86 ∷ 73 ∷ 68 ∷ 69 ∷ 95 ∷ 66 ∷ 89
    ∷ 95 ∷ 90 ∷ 69 ∷ 82 ∷ 79 ∷ []

-- EXCEPTION_DEBUG
abbrev message_1 : List ℕ
message_1 = 69 ∷ 88 ∷ 67 ∷ 69 ∷ 80 ∷ 84 ∷ 73 ∷ 79 ∷ 78 ∷ 95 ∷ 68 ∷ 69 ∷ 66 ∷ 85 ∷ 71 ∷ []

-- EXCEPTION_NON_MASKABLE_INTERRUPT
abbrev message_2 : List ℕ
message_2 =
    69 ∷ 88 ∷ 67 ∷ 69 ∷ 80 ∷ 84 ∷ 73 ∷ 79 ∷ 78 ∷ 95 ∷ 78 ∷ 79 ∷ 78 ∷ 95 ∷ 77 ∷ 65 ∷ 83 ∷ 75 ∷ 65
    ∷ 66 ∷ 76 ∷ 69 ∷ 95 ∷ 73 ∷ 78 ∷ 84 ∷ 69 ∷ 82 ∷ 82 ∷ 85 ∷ 80 ∷ 84 ∷ []

-- EXCEPTION_BREAKPOINT
abbrev message_3 : List ℕ
message_3 =
    69 ∷ 88 ∷ 67 ∷ 69 ∷ 80 ∷ 84 ∷ 73 ∷ 79 ∷ 78 ∷ 95 ∷ 66 ∷ 82 ∷ 69 ∷ 65 ∷ 75 ∷ 80 ∷ 79 ∷ 73 ∷ 78
    ∷ 84 ∷ []

-- EXCEPTION_OVERFLOW
abbrev message_4 : List ℕ
message_4 =
    69 ∷ 88 ∷ 67 ∷ 69 ∷ 80 ∷ 84 ∷ 73 ∷ 79 ∷ 78 ∷ 95 ∷ 79 ∷ 86 ∷ 69 ∷ 82 ∷ 70 ∷ 76 ∷ 79 ∷ 87 ∷ []

-- EXCEPTION_BOUND_RANGE_EXCEEDED
abbrev message_5 : List ℕ
message_5 =
    69 ∷ 88 ∷ 67 ∷ 69 ∷ 80 ∷ 84 ∷ 73 ∷ 79 ∷ 78 ∷ 95 ∷ 66 ∷ 79 ∷ 85 ∷ 78 ∷ 68 ∷ 95 ∷ 82 ∷ 65 ∷ 78
    ∷ 71 ∷ 69 ∷ 95 ∷ 69 ∷ 88 ∷ 67 ∷ 69 ∷ 69 ∷ 68 ∷ 69 ∷ 68 ∷ []

-- EXCEPTION_INVALID_OPCODE
abbrev message_6 : List ℕ
message_6 =
    69 ∷ 88 ∷ 67 ∷ 69 ∷ 80 ∷ 84 ∷ 73 ∷ 79 ∷ 78 ∷ 95 ∷ 73 ∷ 78 ∷ 86 ∷ 65 ∷ 76 ∷ 73 ∷ 68 ∷ 95 ∷ 79
    ∷ 80 ∷ 67 ∷ 79 ∷ 68 ∷ 69 ∷ []

-- EXCEPTION_DEVICE_NOT_AVAILABLE
abbrev message_7 : List ℕ
message_7 =
    69 ∷ 88 ∷ 67 ∷ 69 ∷ 80 ∷ 84 ∷ 73 ∷ 79 ∷ 78 ∷ 95 ∷ 68 ∷ 69 ∷ 86 ∷ 73 ∷ 67 ∷ 69 ∷ 95 ∷ 78 ∷ 79
    ∷ 84 ∷ 95 ∷ 65 ∷ 86 ∷ 65 ∷ 73 ∷ 76 ∷ 65 ∷ 66 ∷ 76 ∷ 69 ∷ []

-- EXCEPTION_DOUBLE_FAULT
abbrev message_8 : List ℕ
message_8 =
    69 ∷ 88 ∷ 67 ∷ 69 ∷ 80 ∷ 84 ∷ 73 ∷ 79 ∷ 78 ∷ 95 ∷ 68 ∷ 79 ∷ 85 ∷ 66 ∷ 76 ∷ 69 ∷ 95 ∷ 70 ∷ 65
    ∷ 85 ∷ 76 ∷ 84 ∷ []

-- EXCEPTION_COPROCESSOR_SEGMENT_OVERRUN
abbrev message_9 : List ℕ
message_9 =
    69 ∷ 88 ∷ 67 ∷ 69 ∷ 80 ∷ 84 ∷ 73 ∷ 79 ∷ 78 ∷ 95 ∷ 67 ∷ 79 ∷ 80 ∷ 82 ∷ 79 ∷ 67 ∷ 69 ∷ 83 ∷ 83
    ∷ 79 ∷ 82 ∷ 95 ∷ 83 ∷ 69 ∷ 71 ∷ 77 ∷ 69 ∷ 78 ∷ 84 ∷ 95 ∷ 79 ∷ 86 ∷ 69 ∷ 82 ∷ 82 ∷ 85 ∷ 78 ∷ []

-- EXCEPTION_INVALID_TSS
abbrev message_10 : List ℕ
message_10 =
    69 ∷ 88 ∷ 67 ∷ 69 ∷ 80 ∷ 84 ∷ 73 ∷ 79 ∷ 78 ∷ 95 ∷ 73 ∷ 78 ∷ 86 ∷ 65 ∷ 76 ∷ 73 ∷ 68 ∷ 95 ∷ 84
    ∷ 83 ∷ 83 ∷ []

-- EXCEPTION_SEGMENT_NOT_PRESENT
abbrev message_11 : List ℕ
message_11 =
    69 ∷ 88 ∷ 67 ∷ 69 ∷ 80 ∷ 84 ∷ 73 ∷ 79 ∷ 78 ∷ 95 ∷ 83 ∷ 69 ∷ 71 ∷ 77 ∷ 69 ∷ 78 ∷ 84 ∷ 95 ∷ 78
    ∷ 79 ∷ 84 ∷ 95 ∷ 80 ∷ 82 ∷ 69 ∷ 83 ∷ 69 ∷ 78 ∷ 84 ∷ []

-- EXCEPTION_STACK_SEGMENT_FAULT
abbrev message_12 : List ℕ
message_12 =
    69 ∷ 88 ∷ 67 ∷ 69 ∷ 80 ∷ 84 ∷ 73 ∷ 79 ∷ 78 ∷ 95 ∷ 83 ∷ 84 ∷ 65 ∷ 67 ∷ 75 ∷ 95 ∷ 83 ∷ 69 ∷ 71
    ∷ 77 ∷ 69 ∷ 78 ∷ 84 ∷ 95 ∷ 70 ∷ 65 ∷ 85 ∷ 76 ∷ 84 ∷ []

-- EXCEPTION_GENERAL_PROTECTION_FAULT
abbrev message_13 : List ℕ
message_13 =
    69 ∷ 88 ∷ 67 ∷ 69 ∷ 80 ∷ 84 ∷ 73 ∷ 79 ∷ 78 ∷ 95 ∷ 71 ∷ 69 ∷ 78 ∷ 69 ∷ 82 ∷ 65 ∷ 76 ∷ 95 ∷ 80
    ∷ 82 ∷ 79 ∷ 84 ∷ 69 ∷ 67 ∷ 84 ∷ 73 ∷ 79 ∷ 78 ∷ 95 ∷ 70 ∷ 65 ∷ 85 ∷ 76 ∷ 84 ∷ []

-- EXCEPTION_PAGE_FAULT
abbrev message_14 : List ℕ
message_14 =
    69 ∷ 88 ∷ 67 ∷ 69 ∷ 80 ∷ 84 ∷ 73 ∷ 79 ∷ 78 ∷ 95 ∷ 80 ∷ 65 ∷ 71 ∷ 69 ∷ 95 ∷ 70 ∷ 65 ∷ 85 ∷ 76
    ∷ 84 ∷ []

-- EXCEPTION_0xF
abbrev message_15 : List ℕ
message_15 = 69 ∷ 88 ∷ 67 ∷ 69 ∷ 80 ∷ 84 ∷ 73 ∷ 79 ∷ 78 ∷ 95 ∷ 48 ∷ 120 ∷ 70 ∷ []

-- EXCEPTION_X87_FLOATING_POINT_EXCEPTION
abbrev message_16 : List ℕ
message_16 =
    69 ∷ 88 ∷ 67 ∷ 69 ∷ 80 ∷ 84 ∷ 73 ∷ 79 ∷ 78 ∷ 95 ∷ 88 ∷ 56 ∷ 55 ∷ 95 ∷ 70 ∷ 76 ∷ 79 ∷ 65 ∷ 84
    ∷ 73 ∷ 78 ∷ 71 ∷ 95 ∷ 80 ∷ 79 ∷ 73 ∷ 78 ∷ 84 ∷ 95 ∷ 69 ∷ 88 ∷ 67 ∷ 69 ∷ 80 ∷ 84 ∷ 73 ∷ 79 ∷ 78
    ∷ []

-- EXCEPTION_ALIGNMENT_CHECK
abbrev message_17 : List ℕ
message_17 =
    69 ∷ 88 ∷ 67 ∷ 69 ∷ 80 ∷ 84 ∷ 73 ∷ 79 ∷ 78 ∷ 95 ∷ 65 ∷ 76 ∷ 73 ∷ 71 ∷ 78 ∷ 77 ∷ 69 ∷ 78 ∷ 84
    ∷ 95 ∷ 67 ∷ 72 ∷ 69 ∷ 67 ∷ 75 ∷ []

-- EXCEPTION_MACHINE_CHECK
abbrev message_18 : List ℕ
message_18 =
    69 ∷ 88 ∷ 67 ∷ 69 ∷ 80 ∷ 84 ∷ 73 ∷ 79 ∷ 78 ∷ 95 ∷ 77 ∷ 65 ∷ 67 ∷ 72 ∷ 73 ∷ 78 ∷ 69 ∷ 95 ∷ 67
    ∷ 72 ∷ 69 ∷ 67 ∷ 75 ∷ []

-- EXCEPTION_SIMD_FLOATING_POINT_EXCEPTION
abbrev message_19 : List ℕ
message_19 =
    69 ∷ 88 ∷ 67 ∷ 69 ∷ 80 ∷ 84 ∷ 73 ∷ 79 ∷ 78 ∷ 95 ∷ 83 ∷ 73 ∷ 77 ∷ 68 ∷ 95 ∷ 70 ∷ 76 ∷ 79 ∷ 65
    ∷ 84 ∷ 73 ∷ 78 ∷ 71 ∷ 95 ∷ 80 ∷ 79 ∷ 73 ∷ 78 ∷ 84 ∷ 95 ∷ 69 ∷ 88 ∷ 67 ∷ 69 ∷ 80 ∷ 84 ∷ 73 ∷ 79
    ∷ 78 ∷ []

-- EXCEPTION_VIRTUALIZATION_EXCEPTION
abbrev message_20 : List ℕ
message_20 =
    69 ∷ 88 ∷ 67 ∷ 69 ∷ 80 ∷ 84 ∷ 73 ∷ 79 ∷ 78 ∷ 95 ∷ 86 ∷ 73 ∷ 82 ∷ 84 ∷ 85 ∷ 65 ∷ 76 ∷ 73 ∷ 90
    ∷ 65 ∷ 84 ∷ 73 ∷ 79 ∷ 78 ∷ 95 ∷ 69 ∷ 88 ∷ 67 ∷ 69 ∷ 80 ∷ 84 ∷ 73 ∷ 79 ∷ 78 ∷ []

-- EXCEPTION_0x15
abbrev message_21 : List ℕ
message_21 = 69 ∷ 88 ∷ 67 ∷ 69 ∷ 80 ∷ 84 ∷ 73 ∷ 79 ∷ 78 ∷ 95 ∷ 48 ∷ 120 ∷ 49 ∷ 53 ∷ []

-- EXCEPTION_0x16
abbrev message_22 : List ℕ
message_22 = 69 ∷ 88 ∷ 67 ∷ 69 ∷ 80 ∷ 84 ∷ 73 ∷ 79 ∷ 78 ∷ 95 ∷ 48 ∷ 120 ∷ 49 ∷ 54 ∷ []

-- EXCEPTION_0x17
abbrev message_23 : List ℕ
message_23 = 69 ∷ 88 ∷ 67 ∷ 69 ∷ 80 ∷ 84 ∷ 73 ∷ 79 ∷ 78 ∷ 95 ∷ 48 ∷ 120 ∷ 49 ∷ 55 ∷ []

-- EXCEPTION_0x18
abbrev message_24 : List ℕ
message_24 = 69 ∷ 88 ∷ 67 ∷ 69 ∷ 80 ∷ 84 ∷ 73 ∷ 79 ∷ 78 ∷ 95 ∷ 48 ∷ 120 ∷ 49 ∷ 56 ∷ []

-- EXCEPTION_0x19
abbrev message_25 : List ℕ
message_25 = 69 ∷ 88 ∷ 67 ∷ 69 ∷ 80 ∷ 84 ∷ 73 ∷ 79 ∷ 78 ∷ 95 ∷ 48 ∷ 120 ∷ 49 ∷ 57 ∷ []

-- EXCEPTION_0x1A
abbrev message_26 : List ℕ
message_26 = 69 ∷ 88 ∷ 67 ∷ 69 ∷ 80 ∷ 84 ∷ 73 ∷ 79 ∷ 78 ∷ 95 ∷ 48 ∷ 120 ∷ 49 ∷ 65 ∷ []

-- EXCEPTION_0x1B
abbrev message_27 : List ℕ
message_27 = 69 ∷ 88 ∷ 67 ∷ 69 ∷ 80 ∷ 84 ∷ 73 ∷ 79 ∷ 78 ∷ 95 ∷ 48 ∷ 120 ∷ 49 ∷ 66 ∷ []

-- EXCEPTION_0x1C
abbrev message_28 : List ℕ
message_28 = 69 ∷ 88 ∷ 67 ∷ 69 ∷ 80 ∷ 84 ∷ 73 ∷ 79 ∷ 78 ∷ 95 ∷ 48 ∷ 120 ∷ 49 ∷ 67 ∷ []

-- EXCEPTION_0x1D
abbrev message_29 : List ℕ
message_29 = 69 ∷ 88 ∷ 67 ∷ 69 ∷ 80 ∷ 84 ∷ 73 ∷ 79 ∷ 78 ∷ 95 ∷ 48 ∷ 120 ∷ 49 ∷ 68 ∷ []

-- EXCEPTION_SECURITY_EXCEPTION
abbrev message_30 : List ℕ
message_30 =
    69 ∷ 88 ∷ 67 ∷ 69 ∷ 80 ∷ 84 ∷ 73 ∷ 79 ∷ 78 ∷ 95 ∷ 83 ∷ 69 ∷ 67 ∷ 85 ∷ 82 ∷ 73 ∷ 84 ∷ 89 ∷ 95
    ∷ 69 ∷ 88 ∷ 67 ∷ 69 ∷ 80 ∷ 84 ∷ 73 ∷ 79 ∷ 78 ∷ []

-- EXCEPTION_0x1F
abbrev message_31 : List ℕ
message_31 = 69 ∷ 88 ∷ 67 ∷ 69 ∷ 80 ∷ 84 ∷ 73 ∷ 79 ∷ 78 ∷ 95 ∷ 48 ∷ 120 ∷ 49 ∷ 70 ∷ []

-- The text for an exception's number.
abbrev pub messages : List (List ℕ)
messages =
    message_0 ∷ message_1 ∷ message_2 ∷ message_3 ∷ message_4 ∷ message_5 ∷ message_6 ∷ message_7
    ∷ message_8 ∷ message_9 ∷ message_10 ∷ message_11 ∷ message_12 ∷ message_13 ∷ message_14
    ∷ message_15 ∷ message_16 ∷ message_17 ∷ message_18 ∷ message_19 ∷ message_20 ∷ message_21
    ∷ message_22 ∷ message_23 ∷ message_24 ∷ message_25 ∷ message_26 ∷ message_27 ∷ message_28
    ∷ message_29 ∷ message_30 ∷ message_31 ∷ []
