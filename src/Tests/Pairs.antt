-- ===== src/Tests/Pairs.antt =====
-- A library with records of two bytes, a byte and its check, for the strategy of
-- impl/common/crypto/OpenSslCryptoStrategy.cpp. A record whose check differs is an error.
use aa_v.Base.{
  ℕ, zero, suc, ◌+◌, ◌<◌, ◌≡◌, refl, sym, ap, ◌∙◌, true, false, some, [], ◌∷◌, ◌++◌, Bytes, length,
  take, drop, All, if_elim, append-nil, ◌==◌, if◌then◌else◌, arith,
}
use mathlib.Core.Logic.{◌≢◌}
use mathlib.Core.Path.{subst}
use aa_v.Base.Bits.{IsByte}
use aa_v.Tls.{SslError, SslRead, OpenSsl}
use aa_v.Tls.Loops.{HasOutbox}
use aa_v.Tls.Records.{IsTls}
use aa_v.Tls.Delivery.{Seals}
use aa_v.Tls.Tunnel.{IsKeyed}

-- An object: the ciphertext it got, the plaintext it handed out, and its write BIO.
pub record Object : Type 0 where
  pub received : Bytes
  pub handed : Bytes
  pub outbox : Bytes

abbrev pub double : ℕ → ℕ
double zero = zero
double (suc n) = suc (suc (double n))

abbrev pub sealed : Bytes → Bytes
sealed [] = []
sealed (b ∷ bytes) = b ∷ b ∷ sealed bytes

abbrev pub opened : Bytes → Bytes
opened [] = []
opened (b ∷ []) = []
opened (b ∷ check ∷ rest) = b ∷ opened rest

-- The checks of the whole records; and that there is no half record behind them.
abbrev pub Checked : Bytes → Type 0
Checked [] = Unit
Checked (b ∷ []) = Unit
Checked (b ∷ check ∷ rest) = (b ≡ check) × Checked rest

abbrev pub Whole : Bytes → Type 0
Whole [] = Unit
Whole (b ∷ []) = false ≡ true
Whole (b ∷ check ∷ rest) = (b ≡ check) × Whole rest

abbrev pub to_read : Object → Bytes
to_read x = drop (double (length x.handed)) x.received

abbrev pub read_record : Bytes → Object → Object × SslRead
read_record [] x = (x, SslRead.read_failed SslError.want_read)
read_record (b ∷ []) x = (x, SslRead.read_failed SslError.want_read)
read_record (b ∷ check ∷ rest) x =
    if b == check
    then (record x { handed = x.handed ++ b ∷ [] }, SslRead.bytes_read (b ∷ []))
    else (x, SslRead.read_failed SslError.other_error)

abbrev pub lib : OpenSsl ℕ Object
lib = record {
  ctx_new = some 0;
  restrict = λ ctx. ctx + 1;
  use_certificate_file = λ path ctx. (ctx, false);
  use_certificate = λ pem ctx. (ctx + 1, true);
  use_private_key_file = λ path ctx. (ctx, false);
  use_private_key = λ pem ctx. (ctx + 1, true);
  ssl_new = λ ctx. some (record { received = []; handed = []; outbox = [] });
  bio_write = λ bytes x. record x { received = x.received ++ bytes };
  do_handshake = λ x. (x, true, SslError.want_read);
  ssl_write = λ bytes x. (record x { outbox = x.outbox ++ sealed bytes }, true);
  ssl_read = λ n x. read_record (to_read x) x;
  pending = λ x. length x.outbox;
  bio_read = λ n x. (record x { outbox = drop n x.outbox }, take n x.outbox);
  unread = λ x. length (to_read x);
}

unfoldable pub lib-HasOutbox : HasOutbox lib
lib-HasOutbox = record {
  outbox = λ x. x.outbox;
  pending-outbox = λ x. refl;
  bio_read-front = λ n x. refl;
  bio_read-rest = λ n x. refl;
}

unfoldable pub lib-Seals : Seals lib lib-HasOutbox
unfolding lib-HasOutbox
lib-Seals = record {
  sealed = λ x bytes. sealed bytes;
  ssl_write-writes = λ x bytes h. refl;
  ssl_write-outbox = λ x bytes h. refl;
}

drop-one_more :
    (h : Bytes) (b : ℕ) (c : Bytes)
    → drop (double (length (h ++ b ∷ []))) c ≡ drop 2 (drop (double (length h)) c)
drop-one_more [] b c = refl
drop-one_more (x ∷ h) b [] = refl
drop-one_more (x ∷ h) b (y ∷ []) = refl
drop-one_more (x ∷ h) b (y ∷ z ∷ c) = drop-one_more h b c

pub opened-grows : (a b : Bytes) → (more : Bytes) × (opened (a ++ b) ≡ opened a ++ more)
opened-grows [] b = (opened b, refl)
opened-grows (x ∷ []) b = (opened (x ∷ b), refl)
opened-grows (x ∷ y ∷ a) b = let (more, e) = opened-grows a b in (more, ap (◌∷◌ x) e)

pub opened-drop :
    (h left c : Bytes) → h ++ left ≡ opened c → opened (drop (double (length h)) c) ≡ left
opened-drop [] left c e = sym e
opened-drop (x ∷ h) left [] e = absurd (cc e)
opened-drop (x ∷ h) left (y ∷ []) e = absurd (cc e)
opened-drop (x ∷ h) left (y ∷ z ∷ c) e = opened-drop h left c (cc e)

pub Checked-front : (a b : Bytes) → Checked (a ++ b) → Checked a
Checked-front [] b k = tt
Checked-front (x ∷ []) b k = tt
Checked-front (x ∷ y ∷ a) b (e, k) = (e, Checked-front a b k)

Checked-drop : (h : Bytes) (c : Bytes) → Checked c → Checked (drop (double (length h)) c)
Checked-drop [] c k = k
Checked-drop (x ∷ h) [] k = tt
Checked-drop (x ∷ h) (y ∷ []) k = tt
Checked-drop (x ∷ h) (y ∷ z ∷ c) (e, k) = Checked-drop h c k

pub read-consumes :
    (q : Bytes) (x : Object) (bytes : Bytes)
    → to_read x ≡ q
    → (read_record q x).1 ≡ SslRead.bytes_read bytes
    → length (to_read (read_record q x).0) < length (to_read x)
read-consumes [] x bytes e h = absurd (cc h)
read-consumes (b ∷ []) x bytes e h = absurd (cc h)
read-consumes (b ∷ check ∷ rest) x bytes e h =
    if_elim
      (λ (r : Object × SslRead).
        r.1 ≡ SslRead.bytes_read bytes → length (to_read r.0) < length (to_read x))
      (b == check) _ _
      (λ same k.
        omega (arith, ap length (drop-one_more x.handed b x.received ∙ ap (drop 2) e), ap length e))
      (λ other k. absurd (cc k)) h

pub read-nothing :
    (q : Bytes) (x : Object)
    → opened q ≡ []
    → read_record q x ≡ (x, SslRead.read_failed SslError.want_read)
read-nothing [] x h = refl
read-nothing (b ∷ []) x h = refl
read-nothing (b ∷ check ∷ rest) x h = absurd (cc h)

-- A whole record that checks is read.
read-record :
    (q : Bytes) (x : Object) (left : Bytes)
    → Checked q
    → opened q ≡ left
    → left ≢ []
    → (b : ℕ) × (more : Bytes) × (b ∷ more ≡ left)
      × (read_record q x ≡ (record x { handed = x.handed ++ b ∷ [] }, SslRead.bytes_read (b ∷ [])))
read-record [] x left k e h = absurd (h (sym e))
read-record (b ∷ []) x left k e h = absurd (h (sym e))
read-record (b ∷ check ∷ rest) x left (same, k) e h = (b, opened rest, e, ground (arith, same))

-- The next whole record, and what is left behind it.
pub next_record :
    (x : Object) (left : Bytes)
    → Checked x.received
    → x.handed ++ left ≡ opened x.received
    → left ≢ []
    → (b : ℕ) × (more : Bytes) × (b ∷ more ≡ left)
      × (read_record (to_read x) x
          ≡ (record x { handed = x.handed ++ b ∷ [] }, SslRead.bytes_read (b ∷ [])))
next_record x left k h some_left =
    read-record (to_read x) x left (Checked-drop x.handed x.received k)
      (opened-drop x.handed left x.received h) some_left

pub part_of :
    (x y : Object) (bytes left : Bytes)
    → Checked x.received
    → x.handed ++ left ≡ opened x.received
    → read_record (to_read x) x ≡ (y, SslRead.bytes_read bytes)
    → (more : Bytes) × (bytes ++ more ≡ left)
      × (y.received ≡ x.received)
      × (y.handed ≡ x.handed ++ bytes)
      × (y.outbox ≡ x.outbox)
part_of x y bytes [] k h q = absurd (
    cc (
      sym (ap (λ r. r.1) (read-nothing (to_read x) x (opened-drop x.handed [] x.received h)))
      ∙ ap (λ r. r.1) q))
part_of x y bytes (l ∷ left) k h q =
    let (b, more, e, run) = next_record x (l ∷ left) k h (λ c. cc c) in
    let moved : record x { handed = x.handed ++ b ∷ [] } ≡ y = ap (λ r. r.0) (sym run ∙ q) in
    let front : b ∷ [] ≡ bytes = cc (ap (λ r. r.1) (sym run ∙ q)) in
    (
      more,
      ap (λ f. f ++ more) (sym front) ∙ e,
      ap (λ (z : Object). z.received) (sym moved),
      ap (λ (z : Object). z.handed) (sym moved) ∙ ap (λ f. x.handed ++ f) front,
      ap (λ (z : Object). z.outbox) (sym moved),
    )

unfoldable pub lib-IsTls : IsTls lib
lib-IsTls = record {
  received = λ x. x.received;
  delivered = λ x. x.handed;
  Rest = Bytes;
  rest = λ x. x.outbox;
  opens = λ r c. opened c;
  IsAuthentic = λ r c. Checked c;
  authentic-front = λ r a b k. Checked-front a b k;
  consumes = λ x bytes h. read-consumes (to_read x) x bytes refl h;
  opens-grows = λ r a b. opened-grows a b;
  write-received = λ x bytes. refl;
  write-delivered = λ x bytes. refl;
  write-rest = λ x bytes. refl;
  read-empty = λ x k h.
      read-nothing (to_read x) x (opened-drop x.handed [] x.received (append-nil x.handed ∙ h));
  read-some = λ x left k h some_left.
      let (b, more, e, run) = next_record x left k h some_left in (b ∷ [], ap (λ r. r.1) run);
  read-part = λ x y bytes left k h q. part_of x y bytes left k h q;
  shows = λ x y r d o. cc (r, d, o);
}

Whole-Checked : (c more : Bytes) → Whole c → Checked more → Checked (c ++ more)
Whole-Checked [] more w k = k
Whole-Checked (x ∷ []) more w k = absurd (cc w)
Whole-Checked (x ∷ y ∷ c) more (e, w) k = (e, Whole-Checked c more w k)

Whole-append : (c more : Bytes) → Whole c → Whole more → Whole (c ++ more)
Whole-append [] more w k = k
Whole-append (x ∷ []) more w k = absurd (cc w)
Whole-append (x ∷ y ∷ c) more (e, w) k = (e, Whole-append c more w k)

Whole-opened : (c more : Bytes) → Whole c → opened (c ++ more) ≡ opened c ++ opened more
Whole-opened [] more w = refl
Whole-opened (x ∷ []) more w = absurd (cc w)
Whole-opened (x ∷ y ∷ c) more (e, w) = ap (◌∷◌ x) (Whole-opened c more w)

sealed-Whole : (bytes : Bytes) → Whole (sealed bytes)
sealed-Whole [] = tt
sealed-Whole (b ∷ bytes) = (refl, sealed-Whole bytes)

sealed-Checked : (bytes : Bytes) → Checked (sealed bytes)
sealed-Checked [] = tt
sealed-Checked (b ∷ bytes) = (refl, sealed-Checked bytes)

opened-sealed : (bytes : Bytes) → opened (sealed bytes) ≡ bytes
opened-sealed [] = refl
opened-sealed (b ∷ bytes) = ap (◌∷◌ b) (opened-sealed bytes)

sealed-bytes : (bytes : Bytes) → All IsByte bytes → All IsByte (sealed bytes)
sealed-bytes [] h = tt
sealed-bytes (b ∷ bytes) (p, h) = (p, (p, sealed-bytes bytes h))

-- The receiver has got whole records only.
abbrev pub Keyed : Object → Object → Type 0
Keyed x y = Whole y.received

pub lib-IsKeyed : IsKeyed lib lib-HasOutbox lib-Seals lib lib-IsTls Keyed
unfolding lib-HasOutbox lib-Seals lib-IsTls
lib-IsKeyed = record {
  sealed-bytes = λ x bytes h. sealed-bytes bytes h;
  opens-sealed = λ x y bytes k h.
      Whole-opened y.received (sealed bytes) k
      ∙ ap (λ b. opened y.received ++ b) (opened-sealed bytes);
  sealed-IsAuthentic =
      λ x y bytes k h. Whole-Checked y.received (sealed bytes) k (sealed-Checked bytes);
  next-Keyed = λ x y z bytes k r q.
      subst Whole (sym r) (Whole-append y.received (sealed bytes) k (sealed-Whole bytes));
  bio_read-Keyed = λ n x y k. k;
}
