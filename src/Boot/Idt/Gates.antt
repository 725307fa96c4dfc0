-- ===== src/Boot/Idt/Gates.antt =====
-- The gates as the processor reads them.
use tomat_os_old.Common.{
  ℕ, ◌+◌, ◌-◌, ◌*◌, ◌^◌, ◌<◌, ◌≡◌, refl, sym, ap, ◌∙◌, Bool, true, false, ◌&&◌, ◌||◌, Option, none,
  some, List, [], ◌∷◌, ltb, ◌==◌, if◌then◌else◌, update, arith, Bool-cases, inl, inr, ==→eq,
  lt_of_ltb,
}
use mathlib.Core.Path.{subst}
use tomat_os_old.Common.Bits.{every, every_lem}
use tomat_os_old.Boot.Gdt.Descriptor.{bits}
use tomat_os_old.Boot.Idt.{
  IdtGate, Handler, exception_interrupt, interrupt_request, syscall_interrupt, pack, gate, no_gate,
  idt_set_entry, idt_entries, set_entries, idt_gates, code_selector, idt_interrupt_gate,
}

-- What the processor reads of a gate.
pub record Enters (handler ring : ℕ) (word : ℕ) : Type 0 where
  pub handler_is : bits 0 16 word + 2 ^ 16 * bits 48 16 word ≡ handler
  pub selector_is : bits 16 16 word ≡ code_selector
  pub type_is : bits 40 4 word ≡ idt_interrupt_gate
  pub ring_is : bits 45 2 word ≡ ring
  pub present_is : bits 47 1 word ≡ 1

gate-Enters : (base ring : ℕ) → base < 2 ^ 32 → ring < 4 → Enters base ring (pack (gate base ring))
unfolding gate pack bits
gate-Enters base ring wide r = record {
  handler_is = omega (arith, wide, r);
  selector_is = omega (arith, wide, r);
  type_is = omega (arith, wide, r);
  ring_is = omega (arith, wide, r);
  present_is = omega (arith, wide, r);
}

-- The handler of a vector and the privilege from which a program may call it: the exceptions, of which
-- debug and breakpoint may be called by programs, the requests behind them, and the system calls.
pub vector : ℕ → Option (Handler × ℕ)
vector n =
    if ltb n 32
    then some (exception_interrupt n, if (n == 1) || (n == 3) then 3 else 0)
    else if ltb n 48
    then some (interrupt_request (n - 32), 0)
    else if n == 128
    then some (syscall_interrupt, 3)
    else none

or_else : Option (Handler × ℕ) → Option (Handler × ℕ) → Option (Handler × ℕ)
or_else none o = o
or_else (some e) o = some e

-- The last entry for a vector.
last_entry : (n : ℕ) → List (ℕ × Handler × ℕ) → Option (Handler × ℕ)
last_entry n [] = none
last_entry n ((i, h, ring) ∷ es) =
    or_else (last_entry n es) (if i == n then some (h, ring) else none)

gate_of : (address : Handler → ℕ) → Option (Handler × ℕ) → IdtGate → IdtGate
gate_of address none g = g
gate_of address (some (h, ring)) g = gate (address h) ring

one_entry :
    (address : Handler → ℕ) (later : Option (Handler × ℕ)) (i n : ℕ) (h : Handler) (ring : ℕ)
    (gates : ℕ → IdtGate)
    → gate_of address later (update gates i (gate (address h) ring) n)
      ≡ gate_of address (or_else later (if i == n then some (h, ring) else none)) (gates n)
unfolding gate_of or_else
one_entry address (some e) i n h ring gates = refl
one_entry address none i n h ring gates = elim (Bool-cases (i == n)) [
  | inl here ↦ rw here refl
  | inr other ↦ rw other refl
]

set_entries_lem :
    (address : Handler → ℕ) (es : List (ℕ × Handler × ℕ)) (gates : ℕ → IdtGate) (n : ℕ)
    → set_entries address es gates n ≡ gate_of address (last_entry n es) (gates n)
unfolding set_entries gate_of last_entry idt_set_entry
set_entries_lem address [] gates n = refl
set_entries_lem address ((i, h, ring) ∷ es) gates n =
    set_entries_lem address es (update gates i (gate (address h) ring)) n
    ∙ one_entry address (last_entry n es) i n h ring gates

same_handler : Handler → Handler → Bool
same_handler (exception_interrupt i) (exception_interrupt j) = i == j
same_handler (interrupt_request i) (interrupt_request j) = i == j
same_handler syscall_interrupt syscall_interrupt = true
same_handler _ _ = false

same : Option (Handler × ℕ) → Option (Handler × ℕ) → Bool
same none none = true
same (some (h, r)) (some (h', r')) = same_handler h h' && (r == r')
same _ _ = false

same_handler_sound : (h h' : Handler) → same_handler h h' ≡ true → h ≡ h'
unfolding same_handler
same_handler_sound (exception_interrupt i) (exception_interrupt j) e =
    ap exception_interrupt (==→eq i j e)
same_handler_sound (interrupt_request i) (interrupt_request j) e =
    ap interrupt_request (==→eq i j e)
same_handler_sound syscall_interrupt syscall_interrupt e = refl
same_handler_sound (exception_interrupt i) (interrupt_request j) e = ground (arith, e)
same_handler_sound (exception_interrupt i) syscall_interrupt e = ground (arith, e)
same_handler_sound (interrupt_request i) (exception_interrupt j) e = ground (arith, e)
same_handler_sound (interrupt_request i) syscall_interrupt e = ground (arith, e)
same_handler_sound syscall_interrupt (exception_interrupt j) e = ground (arith, e)
same_handler_sound syscall_interrupt (interrupt_request j) e = ground (arith, e)

same_sound : (o o' : Option (Handler × ℕ)) → same o o' ≡ true → o ≡ o'
unfolding same
same_sound none none e = refl
same_sound (some (h, r)) (some (h', r')) e =
    let handlers = same_handler_sound h h' (ground (arith, e)) in
    let rings = ==→eq r r' (ground (arith, e)) in
    ap (λ k. some (k, r)) handlers ∙ ap (λ k. some (h', k)) rings
same_sound none (some e') e = ground (arith, e)
same_sound (some e') none e = ground (arith, e)

entry_test : ℕ → Bool
entry_test n = same (last_entry n idt_entries) (vector n)

entry_table : every entry_test 256 ≡ true
unfolding every entry_test same same_handler last_entry or_else vector
entry_table = refl

-- What a gate holds for a vector: its handler, or nothing.
pub Holds : (address : Handler → ℕ) → Option (Handler × ℕ) → IdtGate → Type 0
Holds address none g = pack g ≡ 0
Holds address (some (h, ring)) g = Enters (address h) ring (pack g)

small_ring : Option (Handler × ℕ) → Bool
small_ring none = true
small_ring (some (h, ring)) = ltb ring 4

ring_test : ℕ → Bool
ring_test n = small_ring (vector n)

ring_table : every ring_test 256 ≡ true
unfolding every ring_test small_ring vector
ring_table = refl

gate_of-Holds :
    (address : Handler → ℕ) (o : Option (Handler × ℕ))
    → ((h : Handler) → address h < 2 ^ 32)
    → small_ring o ≡ true
    → Holds address o (gate_of address o no_gate)
unfolding Holds gate_of small_ring pack
gate_of-Holds address none wide small = refl
gate_of-Holds address (some (h, ring)) wide small =
    gate-Enters (address h) ring (wide h) (lt_of_ltb ring 4 small)

-- After `idt_init` each of the 256 vectors has the gate that it should have: the processor finds the
-- handler of the vector, in the kernel's code segment, as a present interrupt gate that may be called
-- from privilege 3 exactly for debug, breakpoint and the system calls; vectors without a handler are
-- empty. The handlers' addresses have 32 bits.
pub idt_gates-Holds :
    (address : Handler → ℕ) (n : ℕ)
    → ((h : Handler) → address h < 2 ^ 32)
    → n < 256
    → Holds address (vector n) (idt_gates address n)
unfolding idt_gates entry_test ring_test
idt_gates-Holds address n wide small =
    let entry =
      same_sound (last_entry n idt_entries) (vector n)
        (every_lem entry_test n 256 small entry_table) in
    let gate_is : idt_gates address n ≡ gate_of address (vector n) no_gate =
      set_entries_lem address idt_entries (λ i. no_gate) n
      ∙ ap (λ o. gate_of address o no_gate) entry in
    subst (Holds address (vector n)) (sym gate_is)
      (gate_of-Holds address (vector n) wide (every_lem ring_test n 256 small ring_table))
