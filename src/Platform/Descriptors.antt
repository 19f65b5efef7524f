-- ===== src/Platform/Descriptors.antt =====
-- The descriptors that AidlEngineController.cpp writes and the transport factory of main.cpp reads.
use aa_v.Base.{
  ℕ, suc, ◌+◌, ◌%◌, ◌≡◌, refl, ap, ◌∙◌, true, false, ◌||◌, Option, none, some, [], ◌∷◌, ◌++◌, Bytes,
  length, drop, concat, ◌==◌, All, if◌then◌else◌, arith,
}
use aa_v.Platform.{
  ℤ, is_negative, to_string, in_int, stoi, starts_with, usb_text, tcp_text, find_text, value_at,
  after_one, is_at_start, parse_int, fd_text, ep_in_text, ep_out_text, equals_text, comma_text,
  Underlying, create, usb_descriptor, tcp_descriptor,
}
use aa_v.Platform.Decimal.{stoi-to_string, digits-All, first_is_digit}

at-after : (at n : ℕ) → suc at + n + 1 ≡ suc (at + n + 1)
at-after at n = omega arith

value_at-after :
    (key text : Bytes) (c : ℕ) (at : Option ℕ)
    → value_at key (c ∷ text) (after_one at) ≡ value_at key text at
value_at-after key text c none = refl
value_at-after key text c (some at) = ap (λ n. stoi (drop n (c ∷ text))) (at-after at (length key))

-- A place where the key does not stand is passed over.
parse_int-skip :
    (key : Bytes) (c : ℕ) (text : Bytes)
    → starts_with (key ++ equals_text) (c ∷ text) ≡ false
    → parse_int (c ∷ text) key ≡ parse_int text key
unfolding parse_int find_text
parse_int-skip key c text h = rw h (value_at-after key text c (find_text (key ++ equals_text) text))

parse_int-append :
    (k : ℕ) (key before text : Bytes)
    → All (λ c. (k == c) ≡ false) before
    → parse_int (before ++ text) (k ∷ key) ≡ parse_int text (k ∷ key)
parse_int-append k key [] text h = refl
parse_int-append k key (c ∷ before) text (p, h) =
    parse_int-skip (k ∷ key) c (before ++ text) (rw p refl) ∙ parse_int-append k key before text h

to_string-All : (P : ℕ → Type 0) (z : ℤ) → ((m : ℕ) → P (48 + m % 10)) → P 45 → All P (to_string z)
unfolding to_string
to_string-All P (ℤ.pos n) d minus = digits-All P 10 n [] d tt
to_string-All P (ℤ.negsuc n) d minus = (minus, digits-All P 10 (suc n) [] d tt)

-- No number has the letter that the keys of the endpoints start with.
to_string-skip :
    (z : ℤ) (key text : Bytes)
    → parse_int (to_string z ++ (comma_text ++ text)) (101 ∷ key) ≡ parse_int text (101 ∷ key)
to_string-skip z key text =
    parse_int-append 101 key (to_string z) (comma_text ++ text)
      (to_string-All (λ c. (101 == c) ≡ false) z (λ m. ground arith) refl)
    ∙ parse_int-skip (101 ∷ key) 44 text refl

fd-skip :
    (fd : ℤ) (key text : Bytes)
    → parse_int
        (usb_text ++ (fd_text ++ (equals_text ++ (to_string fd ++ (comma_text ++ text)))))
        (101 ∷ key)
      ≡ parse_int text (101 ∷ key)
fd-skip fd key text =
    parse_int-append 101 key (usb_text ++ fd_text ++ equals_text)
      (to_string fd ++ (comma_text ++ text))
      (refl, (refl, (refl, (refl, (refl, (refl, (refl, tt)))))))
    ∙ to_string-skip fd key text

fd-value :
    (scheme : Bytes) (z : ℤ) (rest : Bytes)
    → All (λ c. (102 == c) ≡ false) scheme
    → in_int z ≡ true
    → first_is_digit rest ≡ false
    → parse_int (scheme ++ (fd_text ++ (equals_text ++ (to_string z ++ rest)))) fd_text ≡ some z
unfolding parse_int find_text
fd-value scheme z rest h small other =
    parse_int-append 102 (100 ∷ []) scheme (fd_text ++ (equals_text ++ (to_string z ++ rest))) h
    ∙ stoi-to_string z rest small other

ep_in-value :
    (z : ℤ) (rest : Bytes)
    → in_int z ≡ true
    → parse_int (ep_in_text ++ (equals_text ++ (to_string z ++ (comma_text ++ rest)))) ep_in_text
      ≡ some z
unfolding parse_int find_text
ep_in-value z rest small = stoi-to_string z (comma_text ++ rest) small refl

ep_out-value :
    (ep_in z : ℤ)
    → in_int z ≡ true
    → parse_int
        (concat (
          ep_in_text
          ∷ equals_text
          ∷ to_string ep_in
          ∷ comma_text
          ∷ ep_out_text
          ∷ equals_text
          ∷ to_string z
          ∷ []))
        ep_out_text
      ≡ some z
unfolding parse_int find_text
ep_out-value ep_in z small =
    let last = concat (ep_out_text ∷ equals_text ∷ to_string z ∷ []) in
    let value = to_string ep_in ++ (comma_text ++ last) in
    parse_int-skip ep_out_text 101 (112 ∷ 95 ∷ 105 ∷ 110 ∷ 61 ∷ value) refl
    ∙ parse_int-append 101 (112 ∷ 95 ∷ 111 ∷ 117 ∷ 116 ∷ []) (112 ∷ 95 ∷ 105 ∷ 110 ∷ 61 ∷ []) value
        (refl, (refl, (refl, (refl, (refl, tt)))))
    ∙ to_string-skip ep_in (112 ∷ 95 ∷ 111 ∷ 117 ∷ 116 ∷ []) last
    ∙ stoi-to_string z [] small refl

pub create-usb_descriptor :
    (fd ep_in ep_out : ℤ)
    → in_int fd ≡ true
    → in_int ep_in ≡ true
    → in_int ep_out ≡ true
    → create (usb_descriptor fd ep_in ep_out)
      ≡ some (
          if is_negative fd || is_negative ep_in || is_negative ep_out
          then none
          else some (Underlying.usb fd ep_in ep_out))
unfolding create usb_descriptor find_text
create-usb_descriptor fd ep_in ep_out h_fd h_in h_out =
    let last = concat (ep_out_text ∷ equals_text ∷ to_string ep_out ∷ []) in
    let endpoints = ep_in_text ++ (equals_text ++ (to_string ep_in ++ (comma_text ++ last))) in
    rw
      (
        fd-value usb_text fd (comma_text ++ endpoints) (refl, (refl, (refl, (refl, tt)))) h_fd refl,
        fd-skip fd (112 ∷ 95 ∷ 105 ∷ 110 ∷ []) endpoints,
        ep_in-value ep_in last h_in,
        fd-skip fd (112 ∷ 95 ∷ 111 ∷ 117 ∷ 116 ∷ []) endpoints,
        ep_out-value ep_in ep_out h_out,
      )
      refl

after_one-is_at_start : (at : Option ℕ) → is_at_start (after_one at) ≡ false
after_one-is_at_start none = refl
after_one-is_at_start (some at) = ground arith

tcp_descriptor-usb : (fd : ℤ) → is_at_start (find_text usb_text (tcp_descriptor fd)) ≡ false
unfolding tcp_descriptor find_text
tcp_descriptor-usb fd =
    after_one-is_at_start
      (find_text usb_text (99 ∷ 112 ∷ 58 ∷ concat (fd_text ∷ equals_text ∷ to_string fd ∷ [])))

pub create-tcp_descriptor :
    (fd : ℤ)
    → in_int fd ≡ true
    → create (tcp_descriptor fd) ≡ some (if is_negative fd then none else some (Underlying.tcp fd))
unfolding create tcp_descriptor find_text
create-tcp_descriptor fd h =
    rw (fd-value tcp_text fd [] (refl, (refl, (refl, (refl, tt)))) h refl, tcp_descriptor-usb fd)
      refl

-- What startSession and startTcpSession write for any `int`s, the transport factory reads as a USB
-- transport with the same file descriptor and endpoints and as a TCP transport with the same file
-- descriptor; if one of the numbers is negative it gives the null pointer; and it never throws.
pub create-descriptors :
    (fd ep_in ep_out : ℤ)
    → in_int fd ≡ true
    → in_int ep_in ≡ true
    → in_int ep_out ≡ true
    → (create (usb_descriptor fd ep_in ep_out)
        ≡ some (
            if is_negative fd || is_negative ep_in || is_negative ep_out
            then none
            else some (Underlying.usb fd ep_in ep_out)))
      × (create (tcp_descriptor fd)
          ≡ some (if is_negative fd then none else some (Underlying.tcp fd)))
create-descriptors fd ep_in ep_out h_fd h_in h_out =
    (create-usb_descriptor fd ep_in ep_out h_fd h_in h_out, create-tcp_descriptor fd h_fd)
