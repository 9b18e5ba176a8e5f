-- ===== src/Config/Hostnames.antt =====
-- The names `validate_server_name` accepts: host names of RFC 1123.
use rust_rpxy.Common.{
  ℕ, suc, ◌+◌, ◌≤◌, ◌≡◌, ◌↔◌, refl, sym, ap, subst, Bool, true, false, not, ◌&&◌, ◌||◌, List, [],
  ◌∷◌, ◌++◌, arith, ltb, ◌==◌, all, length, length-append, Bytes, All, append-nil, and-intro,
  and-elim, all-append,
}
use rust_rpxy.HeaderText.{is_empty, is_ascii_alphanumeric}
use rust_rpxy.HeaderText.Splitting.{join, is_free, all_free, split-join, split-Parts}
use rust_rpxy.Config.ServerNames.{label_byte, last_is_alphanumeric, is_label, validate_server_name}

-- A label is a letter or digit, or two of them around at most 61 letters, digits and hyphens.
pub data Label (l : Bytes) : Type 0 where
  single : (c : ℕ) → l ≡ c ∷ [] → is_ascii_alphanumeric c ≡ true → Label l
  longer :
      (c : ℕ) (mid : Bytes) (d : ℕ)
      → l ≡ c ∷ mid ++ d ∷ []
      → is_ascii_alphanumeric c ≡ true
      → all label_byte mid ≡ true
      → is_ascii_alphanumeric d ≡ true
      → length mid ≤ 61
      → Label l

pub record HostName (name : Bytes) : Type 0 where
  pub label : Bytes
  pub labels : List Bytes
  pub joined : name ≡ join b'.' (label ∷ labels)
  pub each : All Label (label ∷ labels)
  pub short : length name ≤ 253

record Ends (l : Bytes) : Type 0 where
  mid : Bytes
  last : ℕ
  is : l ≡ mid ++ last ∷ []

ends : (c : ℕ) (s : Bytes) → Ends (c ∷ s)
ends c [] = record { mid = []; last = c; is = refl }
ends c (d ∷ s) = let e = ends d s in record { mid = c ∷ e.mid; last = e.last; is = ap (◌∷◌ c) e.is }

last-append : (mid : Bytes) (d : ℕ) → last_is_alphanumeric (mid ++ d ∷ []) ≡ is_ascii_alphanumeric d
last-append [] d = refl
last-append (c ∷ []) d = refl
last-append (c ∷ e ∷ mid) d = last-append (e ∷ mid) d

conditions :
    (a x b y m : Bool) (n : ℕ)
    → (not (ltb 63 (suc (n + 1))) && (a && b) && ((a || x) && (m && ((b || y) && true))) ≡ true)
      ↔ (a ≡ true) × (m ≡ true) × (b ≡ true) × (n ≤ 61)
conditions a x b y m n = ground arith

is_label-ends :
    (c : ℕ) (mid : Bytes) (d : ℕ)
    → (is_label (c ∷ mid ++ d ∷ []) ≡ true)
      ↔ (is_ascii_alphanumeric c ≡ true)
        × (all label_byte mid ≡ true)
        × (is_ascii_alphanumeric d ≡ true)
        × (length mid ≤ 61)
is_label-ends c mid d =
    rw (last-append (c ∷ mid) d, all-append label_byte mid (d ∷ []), length-append mid (d ∷ []))
      (conditions (is_ascii_alphanumeric c) (c == b'-') (is_ascii_alphanumeric d) (d == b'-')
        (all label_byte mid) (length mid))

is_label-Label : (l : Bytes) → is_label l ≡ true → Label l
is_label-Label [] h = absurd (cc)
is_label-Label (c ∷ []) h = single c refl (ground arith)
is_label-Label (c ∷ d ∷ s) h =
    let e = ends d s in
    let (p, m, q, n) =
      (is_label-ends c e.mid e.last).0 (subst (λ x. is_label (c ∷ x) ≡ true) e.is h) in
    longer c e.mid e.last (ap (◌∷◌ c) e.is) p m q n

single-is_label : (c : ℕ) → is_ascii_alphanumeric c ≡ true → is_label (c ∷ []) ≡ true
single-is_label c h = rw h refl

Label-is_label : (l : Bytes) → Label l → is_label l ≡ true
Label-is_label l (single c e q) = rw e (single-is_label c q)
Label-is_label l (longer c mid d e q m r n) = rw e ((is_label-ends c mid d).1 (q, m, r, n))

label_ascii : (l : Bytes) → all label_byte l ≡ true → all (λ b. ltb b 128) l ≡ true
label_ascii [] h = refl
label_ascii (c ∷ l) h = ground (arith, label_ascii l)

label_free : (l : Bytes) → all label_byte l ≡ true → is_free b'.' l ≡ true
label_free [] h = refl
label_free (c ∷ l) h = ground (arith, label_free l)

labels-All : (ls : List Bytes) → all is_label ls ≡ true → All Label ls
labels-All [] h = tt
labels-All (l ∷ ls) h = let (p, q) = and-elim h in (is_label-Label l p, labels-All ls q)

All-labels : (ls : List Bytes) → All Label ls → all is_label ls ≡ true
All-labels [] h = refl
All-labels (l ∷ ls) (p, q) = and-intro (Label-is_label l p) (All-labels ls q)

label-bytes : (l : Bytes) → is_label l ≡ true → all label_byte l ≡ true
label-bytes l h = (and-elim h).1

labels_free : (ls : List Bytes) → all is_label ls ≡ true → all_free b'.' ls ≡ true
labels_free [] h = refl
labels_free (l ∷ ls) h =
    let (p, q) = and-elim h in and-intro (label_free l (label-bytes l p)) (labels_free ls q)

labels_ascii :
    (ls : List Bytes) → all is_label ls ≡ true → all (λ b. ltb b 128) (join b'.' ls) ≡ true
labels_ascii [] h = refl
labels_ascii (l ∷ []) h = label_ascii l (label-bytes l (and-elim h).0)
labels_ascii (l ∷ m ∷ ls) h =
    let (p, q) = and-elim h in
    rw (all-append (λ b. ltb b 128) l (b'.' ∷ join b'.' (m ∷ ls)))
      (and-intro (label_ascii l (label-bytes l p)) (labels_ascii (m ∷ ls) q))

label_not_empty : (l : Bytes) (s : Bytes) → is_label l ≡ true → is_empty (l ++ s) ≡ false
label_not_empty [] s h = cc
label_not_empty (c ∷ l) s h = refl

joined_not_empty :
    (l : Bytes) (ls : List Bytes) → is_label l ≡ true → is_empty (join b'.' (l ∷ ls)) ≡ false
joined_not_empty l [] h = subst (λ x. is_empty x ≡ false) (append-nil l) (label_not_empty l [] h)
joined_not_empty l (m ∷ ls) h = label_not_empty l (b'.' ∷ join b'.' (m ∷ ls)) h

checks :
    (e : Bool) (n : ℕ) (a b : Bool) → not (e || ltb 253 n) && a && b ≡ true → (n ≤ 253) × (b ≡ true)
checks e n a b h = ground arith

not_over : (n : ℕ) → n ≤ 253 → not (false || ltb 253 n) ≡ true
not_over n h = ground arith

-- `validate_server_name` accepts exactly the host names of RFC 1123: at most 253 bytes, and labels joined
-- by dots, each a letter or digit or two of them around at most 61 letters, digits and hyphens.
pub validate_server_name_iff : (name : Bytes) → (validate_server_name name ≡ true) ↔ HostName name
unfolding validate_server_name
validate_server_name_iff name = (to, from)
  where
    to : validate_server_name name ≡ true → HostName name
    to h =
        let r = split-Parts b'.' name in
        let (short, q) = checks (is_empty name) (length name) _ _ h in
        record {
          label = r.head;
          labels = r.tail;
          joined = sym r.joined;
          each = labels-All (r.head ∷ r.tail) (subst (λ x. all is_label x ≡ true) r.are q);
          short = short;
        }

    from : HostName name → validate_server_name name ≡ true
    from r =
        let ok = All-labels (r.label ∷ r.labels) r.each in
        let s = split-join b'.' r.label r.labels (labels_free (r.label ∷ r.labels) ok) in
        let long = subst (λ x. length x ≤ 253) r.joined r.short in
        let any = joined_not_empty r.label r.labels (and-elim ok).0 in
        rw (r.joined, s, labels_ascii (r.label ∷ r.labels) ok, ok, any)
          (and-intro (and-intro (not_over _ long) refl) refl)
