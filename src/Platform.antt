-- ===== src/Platform.antt =====
-- impl/android/main/main.cpp (AndroidTransportFactory) and
-- impl/android/aidl/AidlEngineController.cpp (startSession, startTcpSession): the descriptor of a
-- transport as text, which one writes and the other reads. A text is its characters' codes.
pub mod Decimal
pub mod Descriptors
pub mod Controller
pub mod Notices
pub mod Sessions
pub mod Factory
pub mod Advertised
pub mod Requests
use aa_v.Base.{
  ℕ, zero, suc, ◌+◌, ◌-◌, ◌*◌, ◌/◌, ◌%◌, ◌^◌, Bool, true, false, ◌&&◌, ◌||◌, Option, none, some,
  List, [], ◌∷◌, ◌++◌, Bytes, length, drop, concat, ltb, leb, ◌==◌, if◌then◌else◌,
}

pub data ℤ : Type 0 where
  pos negsuc : ℕ → ℤ

abbrev pub is_negative : ℤ → Bool
is_negative (ℤ.pos n) = false
is_negative (ℤ.negsuc n) = true

-- `std::to_string` of an `int`, which has ten digits at most.
unfoldable pub digits : ℕ → ℕ → Bytes → Bytes
digits zero n text = text
digits (suc fuel) n text =
    let written = (48 + n % 10) ∷ text in
    let more = digits fuel (n / 10) written in if n / 10 == 0 then written else more

unfoldable pub to_string : ℤ → Bytes
to_string (ℤ.pos n) = digits 10 n []
to_string (ℤ.negsuc n) = 45 ∷ digits 10 (suc n) []

-- `std::stoi`: white space, a sign, then the digits up to the first other character. `none` is an
-- exception: no digit, or a number that is no `int`.
abbrev pub is_space : ℕ → Bool
is_space c = (c == 32) || (leb 9 c && leb c 13)

abbrev pub is_digit : ℕ → Bool
is_digit c = leb 48 c && leb c 57

abbrev pub skip_space : Bytes → Bytes
skip_space [] = []
skip_space (c ∷ text) = if is_space c then skip_space text else c ∷ text

abbrev pub scan : ℕ → Bytes → ℕ
scan value [] = value
scan value (c ∷ text) = if is_digit c then scan (value * 10 + (c - 48)) text else value

abbrev pub unsigned : Bytes → Option ℕ
unsigned [] = none
unsigned (c ∷ text) = if is_digit c then some (scan 0 (c ∷ text)) else none

abbrev pub in_int : ℤ → Bool
in_int (ℤ.pos n) = ltb n (2 ^ 31)
in_int (ℤ.negsuc n) = ltb n (2 ^ 31)

abbrev negate : ℕ → ℤ
negate zero = ℤ.pos 0
negate (suc n) = ℤ.negsuc n

abbrev pub checked : (ℕ → ℤ) → Option ℕ → Option ℤ
checked sign none = none
checked sign (some n) = if in_int (sign n) then some (sign n) else none

abbrev pub signed : Bytes → Option ℤ
signed [] = none
signed (c ∷ text) =
    if c == 45
    then checked negate (unsigned text)
    else checked ℤ.pos (unsigned (if c == 43 then text else c ∷ text))

unfoldable pub stoi : Bytes → Option ℤ
stoi text = signed (skip_space text)

-- `std::string::find`: where the first text starts in the second for the first time.
abbrev pub starts_with : Bytes → Bytes → Bool
starts_with [] text = true
starts_with (k ∷ key) [] = false
starts_with (k ∷ key) (c ∷ text) = (k == c) && starts_with key text

abbrev pub after_one : Option ℕ → Option ℕ
after_one none = none
after_one (some at) = some (suc at)

unfoldable pub find_text : Bytes → Bytes → Option ℕ
find_text key [] = if starts_with key [] then some 0 else none
find_text key (c ∷ text) =
    if starts_with key (c ∷ text) then some 0 else after_one (find_text key text)

abbrev pub is_at_start : Option ℕ → Bool
is_at_start none = false
is_at_start (some at) = at == 0

-- The texts "usb:", "tcp:", "fd", "ep_in", "ep_out", "=" and ",".
abbrev pub usb_text : Bytes
usb_text = 117 ∷ 115 ∷ 98 ∷ 58 ∷ []

abbrev pub tcp_text : Bytes
tcp_text = 116 ∷ 99 ∷ 112 ∷ 58 ∷ []

abbrev pub fd_text : Bytes
fd_text = 102 ∷ 100 ∷ []

abbrev pub ep_in_text : Bytes
ep_in_text = 101 ∷ 112 ∷ 95 ∷ 105 ∷ 110 ∷ []

abbrev pub ep_out_text : Bytes
ep_out_text = 101 ∷ 112 ∷ 95 ∷ 111 ∷ 117 ∷ 116 ∷ []

abbrev pub equals_text : Bytes
equals_text = 61 ∷ []

abbrev pub comma_text : Bytes
comma_text = 44 ∷ []

abbrev pub value_at : Bytes → Bytes → Option ℕ → Option ℤ
value_at key descriptor none = some (ℤ.negsuc 0)
value_at key descriptor (some at) = stoi (drop (at + length key + 1) descriptor)

unfoldable pub parse_int : Bytes → Bytes → Option ℤ
parse_int descriptor key = value_at key descriptor (find_text (key ++ equals_text) descriptor)

-- The transport that the factory wraps in a BufferedTransport and starts.
pub data Underlying : Type 0 where
  usb : (fd ep_in ep_out : ℤ) → Underlying
  tcp : (fd : ℤ) → Underlying

infixl 5 ◌>>=◌
abbrev ◌>>=◌ {ℓ κ} : {A : Type ℓ} {B : Type κ} → Option A → (A → Option B) → Option B
none >>= f = none
some a >>= f = f a

abbrev create_usb : Bytes → Option (Option Underlying)
create_usb descriptor = do
  fd ← parse_int descriptor fd_text
  ep_in ← parse_int descriptor ep_in_text
  ep_out ← parse_int descriptor ep_out_text
  some (
      if is_negative fd || is_negative ep_in || is_negative ep_out
      then none
      else some (Underlying.usb fd ep_in ep_out))

abbrev create_tcp : Bytes → Option (Option Underlying)
create_tcp descriptor = do
  fd ← parse_int descriptor fd_text
  some (if is_negative fd then none else some (Underlying.tcp fd))

-- The outer `none` is an exception, the inner one the null pointer.
unfoldable pub create : Bytes → Option (Option Underlying)
create descriptor =
    if is_at_start (find_text usb_text descriptor)
    then create_usb descriptor
    else if is_at_start (find_text tcp_text descriptor)
    then create_tcp descriptor
    else some none

unfoldable pub usb_descriptor : (fd ep_in ep_out : ℤ) → Bytes
usb_descriptor fd ep_in ep_out = concat (
    usb_text
    ∷ fd_text
    ∷ equals_text
    ∷ to_string fd
    ∷ comma_text
    ∷ ep_in_text
    ∷ equals_text
    ∷ to_string ep_in
    ∷ comma_text
    ∷ ep_out_text
    ∷ equals_text
    ∷ to_string ep_out
    ∷ [])

unfoldable pub tcp_descriptor : (fd : ℤ) → Bytes
tcp_descriptor fd = concat (tcp_text ∷ fd_text ∷ equals_text ∷ to_string fd ∷ [])
