-- ===== src/User/Os/Events.antt =====
-- The classes of events of TomatLib/tomato/OS.hpp, lines 12-180, as functions on an event.
use tomat_os_old.Common.{
  ℕ, ◌+◌, ◌%◌, ◌^◌, ◌<◌, ◌≡◌, Bool, not, ltb, leb, ◌==◌, if◌then◌else◌, u8, Run, done, fault, arith,
}
use tomat_os_old.Kernel.{Event}
use tomat_os_old.User.Os.{kind_number}

-- `Event::Kind`
kind : Event → ℕ
kind event = kind_number event.type

-- `Event::operator[]`, whose result is a bool.
at_index : (index : ℕ) → Event → Run Bool
at_index index event =
    if index == 0
    then done (not (event.data0 == 0))
    else if index == 1
    then done (not (event.data1 == 0))
    else if index == 2
    then done (not (event.data2 == 0))
    else if index == 3
    then done (not (event.data3 == 0))
    else fault

-- `TimerEvent::ID`
id : Event → ℕ
id event = event.data0

-- The comparing operators of C++.
data Operator : Type 0 where
  equal different greater greater_or_equal less less_or_equal : Operator

compare_with : Operator → ℕ → ℕ → Bool
compare_with equal a b = a == b
compare_with different a b = not (a == b)
compare_with greater a b = ltb b a
compare_with greater_or_equal a b = leb b a
compare_with less a b = ltb a b
compare_with less_or_equal a b = leb a b

-- `TimerEvent` has the first two operators.
timer_test : Operator → Event → (timer : ℕ) → Bool
unfolding id compare_with
timer_test operator event timer = compare_with operator (id event) timer

-- `KeyEvent::KeyCode` and `KeyUpEvent::KeyCode`
key_code : Event → ℕ
key_code event = event.data0

-- `KeyEvent::Repeat`
repeat : Event → Bool
repeat event = not (event.data1 == 0)

-- The operators of `KeyEvent` and of `KeyUpEvent`.
key_test : Operator → Event → (value : ℕ) → Bool
unfolding key_code compare_with
key_test operator event value = compare_with operator (key_code event) value

key_up_test : Operator → Event → (value : ℕ) → Bool
unfolding key_code compare_with
key_up_test operator event value = compare_with operator (key_code event) value

-- `CharEvent::Char`, the 8 bits of a char.
character : Event → ℕ
character event = u8 event.data0

-- A char is signed: its 8 bits are compared after moving -128 to 0.
char_test : Operator → Event → (value : ℕ) → Bool
unfolding character compare_with
char_test operator event value =
    compare_with operator ((character event + 128) % 2 ^ 8) ((value + 128) % 2 ^ 8)

-- On ASCII characters the operators of `CharEvent` are those on the characters' codes.
char_test-compare_with :
    (operator : Operator) (event : Event) (value : ℕ)
    → event.data0 < 128
    → value < 128
    → char_test operator event value ≡ compare_with operator event.data0 value
unfolding char_test character compare_with
char_test-compare_with equal event value c v = ground (arith, c, v)
char_test-compare_with different event value c v = ground (arith, c, v)
char_test-compare_with greater event value c v = ground (arith, c, v)
char_test-compare_with greater_or_equal event value c v = ground (arith, c, v)
char_test-compare_with less event value c v = ground (arith, c, v)
char_test-compare_with less_or_equal event value c v = ground (arith, c, v)
