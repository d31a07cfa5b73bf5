-- ===== src/Base/ByteStrings.antt =====
-- Byte strings: Go's slicing, with its panic, and big-endian integers.
use Prim.Native.Nat.{ℕ, zero, suc, ◌+◌, ◌-◌, ◌*◌, ◌/◌, ◌%◌, ◌^◌, ◌≤◌, ◌<◌}
use mathlib.Core.Path.{◌≡◌, refl, ap, subst, ◌∙◌}
use mathlib.Core.Bool.{Bool, true, false, ◌&&◌}
use mathlib.Core.Option.{none, some}
use mathlib.Core.List.{List, [], ◌∷◌, ◌++◌}
use native.Mathlib.Omega.{arith}
use native.Mathlib.Nat.{zero-add, add-zero, suc-add, pow-suc}
use anti_nat_agent.Base.Tests.{leb, ◌==◌, if◌then◌else◌}
use anti_nat_agent.Base.Lists.{
  length, take, drop, get_elem?, get_or, All, length-take, length-drop, take-append_eq,
  take-append-drop, length-append, All-append,
}
use anti_nat_agent.Base.Returned.{Result, ok, panic, Returns, ◌>>=◌}

abbrev pub Bytes : Type 0
Bytes = List ℕ

-- Each is below 256.
abbrev pub AreBytes : Bytes → Type 0
AreBytes = All (λ b. b < 256)

abbrev pub bytes_eq : Bytes → Bytes → Bool
bytes_eq [] [] = true
bytes_eq (a ∷ as') (b ∷ bs) = a == b && bytes_eq as' bs
bytes_eq _ _ = false

-- `n` bytes from offset `lo` on.
abbrev pub chunk : ℕ → ℕ → Bytes → Bytes
chunk lo n xs = take n (drop lo xs)

-- xs[lo:hi]
unfoldable pub slice : {E : Type 0} → Bytes → ℕ → ℕ → Result E Bytes
slice xs lo hi = if leb lo hi && leb hi (length xs) then ok (chunk lo (hi - lo) xs) else panic

-- xs[i]
unfoldable pub index : {E : Type 0} → Bytes → ℕ → Result E ℕ
index xs i = elim (get_elem? xs i) [ none ↦ panic | some b ↦ ok b ]

-- The integer that the bytes stand for, the highest byte first.
abbrev pub from_be : ℕ → Bytes → ℕ
from_be acc [] = acc
from_be acc (b ∷ bs) = from_be (acc * 256 + b) bs

abbrev pub be : Bytes → ℕ
be = from_be 0

-- `binary.BigEndian.PutUintN`, in so many bytes.
abbrev pub put_be : ℕ → ℕ → Bytes
put_be zero v = []
put_be (suc n) v = put_be n (v / 256) ++ (v % 256) ∷ []

pub bytes_eq→eq : (xs ys : Bytes) → bytes_eq xs ys ≡ true → xs ≡ ys
bytes_eq→eq [] [] h = refl
bytes_eq→eq [] (y ∷ ys) h = cc
bytes_eq→eq (x ∷ xs) [] h = cc
bytes_eq→eq (x ∷ xs) (y ∷ ys) h = ground (arith, bytes_eq→eq xs ys)

pub bytes_eq_refl : (xs : Bytes) → bytes_eq xs xs ≡ true
bytes_eq_refl [] = refl
bytes_eq_refl (x ∷ xs) = ground (arith, bytes_eq_refl xs)

pub slice_ok :
    {E : Type 0} (xs : Bytes) (lo hi : ℕ)
    → lo ≤ hi
    → hi ≤ length xs
    → slice {E = E} xs lo hi ≡ ok (chunk lo (hi - lo) xs)
unfolding slice
slice_ok xs lo hi h k = ground arith

pub index_ok :
    {E : Type 0} (xs : Bytes) (i : ℕ) → i < length xs → index {E = E} xs i ≡ ok (get_or xs i 0)
unfolding index
index_ok xs i h = rw (get_elem?-ok xs i h, index)
  where
    get_elem?-ok : (xs : Bytes) (i : ℕ) → i < length xs → get_elem? xs i ≡ some (get_or xs i 0)
    get_elem?-ok [] i h = elim h [ ]
    get_elem?-ok (x ∷ xs) zero h = refl
    get_elem?-ok (x ∷ xs) (suc i) h = get_elem?-ok xs i (omega arith)

pub drop-drop : (m n : ℕ) (xs : Bytes) → drop m (drop n xs) ≡ drop (n + m) xs
drop-drop m zero xs = rw zero-add
drop-drop zero (suc n) [] = rw add-zero
drop-drop (suc m) (suc n) [] = rw suc-add
drop-drop m (suc n) (x ∷ xs) = rw suc-add (drop-drop m n xs)

pub length-chunk : (lo n : ℕ) (xs : Bytes) → lo + n ≤ length xs → length (chunk lo n xs) ≡ n
length-chunk lo n xs h = omega (arith, length-take n (drop lo xs), length-drop lo xs)

-- A chunk of a string that begins with `a`.
pub chunk_skip :
    (k : ℕ) (a b : Bytes) (lo n : ℕ)
    → length a ≡ k
    → k ≤ lo
    → chunk lo n (a ++ b) ≡ chunk (lo - k) n b
chunk_skip k [] b lo n h le = let e : lo - k ≡ lo = omega arith in rw e
chunk_skip k (x ∷ a) b zero n h le = absurd (omega arith)
chunk_skip zero (x ∷ a) b (suc lo) n h le = absurd (omega arith)
chunk_skip (suc k) (x ∷ a) b (suc lo) n h le =
    let e : suc lo - suc k ≡ lo - k = omega arith in
    rw e (chunk_skip k a b lo n (omega arith) (omega arith))

pub chunk_head : (n : ℕ) (a b : Bytes) → length a ≡ n → chunk 0 n (a ++ b) ≡ a
chunk_head n a b h = take-append_eq n a b h

-- Two chunks that meet, and the end.
pub chunk_join : (lo n : ℕ) (xs : Bytes) → chunk lo n xs ++ drop (lo + n) xs ≡ drop lo xs
chunk_join lo n xs = rw (← drop-drop n lo xs) (take-append-drop n (drop lo xs))

-- Big-endian integers round trip within their width.
from_be-append :
    (acc : ℕ) (xs : Bytes) (b : ℕ) → from_be acc (xs ++ b ∷ []) ≡ from_be acc xs * 256 + b
from_be-append acc [] b = refl
from_be-append acc (x ∷ xs) b = from_be-append (acc * 256 + x) xs b

pub be-put_be : (n v : ℕ) → v < 256 ^ n → be (put_be n v) ≡ v
be-put_be zero v h = omega arith
be-put_be (suc n) v h =
    rw (from_be-append 0 (put_be n (v / 256)) (v % 256))
      (omega (arith, be-put_be n (v / 256) (omega (arith, pow-suc 256 n))))

pub length-put_be : (n v : ℕ) → length (put_be n v) ≡ n
length-put_be zero v = refl
length-put_be (suc n) v =
    omega (arith, length-append (put_be n (v / 256)) ((v % 256) ∷ []), length-put_be n (v / 256))

pub put_be-AreBytes : (n v : ℕ) → AreBytes (put_be n v)
put_be-AreBytes zero v = tt
put_be-AreBytes (suc n) v =
    All-append (λ b. b < 256) (put_be n (v / 256)) _ (put_be-AreBytes n (v / 256)) (omega arith)

snoc-view :
    (n : ℕ) (xs : Bytes)
    → length xs ≡ suc n
    → (ys : Bytes) × (b : ℕ) × (xs ≡ ys ++ b ∷ []) × (length ys ≡ n)
snoc-view n [] h = absurd (omega arith)
snoc-view zero (x ∷ []) h = ([], x, refl, refl)
snoc-view zero (x ∷ y ∷ xs) h = absurd (omega arith)
snoc-view (suc n) (x ∷ xs) h =
    let (ys, b, e, k) = snoc-view n xs (omega arith) in (x ∷ ys, b, ap (◌∷◌ x) e, ap suc k)

AreBytes-snoc : (ys : Bytes) (b : ℕ) → AreBytes (ys ++ b ∷ []) → AreBytes ys × (b < 256)
AreBytes-snoc [] b h = (tt, h.0)
AreBytes-snoc (y ∷ ys) b h = let (k, l) = AreBytes-snoc ys b h.1 in ((h.0, k), l)

pub put_be-be : (n : ℕ) (xs : Bytes) → length xs ≡ n → AreBytes xs → put_be n (be xs) ≡ xs
put_be-be zero [] h k = refl
put_be-be zero (x ∷ xs) h k = absurd (omega arith)
put_be-be (suc n) xs h k =
    let (ys, b, e, l) = snoc-view n xs h in
    let (m, c) = AreBytes-snoc ys b (subst AreBytes e k) in
    let q : (be ys * 256 + b) / 256 ≡ be ys = omega arith in
    let r : (be ys * 256 + b) % 256 ≡ b = omega arith in
    rw (e, from_be-append 0 ys b) (rw (q, r) (rw (put_be-be n ys l m)))

pub be-lt : (n : ℕ) (xs : Bytes) → length xs ≡ n → AreBytes xs → be xs < 256 ^ n
be-lt zero [] h k = omega arith
be-lt zero (x ∷ xs) h k = absurd (omega arith)
be-lt (suc n) xs h k =
    let (ys, b, e, l) = snoc-view n xs h in
    let (m, c) = AreBytes-snoc ys b (subst AreBytes e k) in
    rw (e, from_be-append 0 ys b) (omega (arith, be-lt n ys l m, pow-suc 256 n))

pub AreBytes-chunk : (lo n : ℕ) (xs : Bytes) → AreBytes xs → AreBytes (chunk lo n xs)
AreBytes-chunk zero zero xs h = tt
AreBytes-chunk zero (suc n) [] h = tt
AreBytes-chunk zero (suc n) (x ∷ xs) h = (h.0, AreBytes-chunk zero n xs h.1)
AreBytes-chunk (suc lo) zero xs h = tt
AreBytes-chunk (suc lo) (suc n) [] h = tt
AreBytes-chunk (suc lo) (suc n) (x ∷ xs) h = AreBytes-chunk lo (suc n) xs h.1

pub get_or-byte : (xs : Bytes) (i : ℕ) → AreBytes xs → get_or xs i 0 < 256
get_or-byte [] i h = omega arith
get_or-byte (x ∷ xs) zero h = h.0
get_or-byte (x ∷ xs) (suc i) h = get_or-byte xs i h.1

pub get_or-drop : (k : ℕ) (xs : Bytes) → k < length xs → get_or xs k 0 ∷ drop (suc k) xs ≡ drop k xs
get_or-drop k [] h = absurd (omega arith)
get_or-drop zero (x ∷ xs) h = refl
get_or-drop (suc k) (x ∷ xs) h = get_or-drop k xs (omega arith)

-- The parts of a message one after another, and where one of them begins.
abbrev pub join : List Bytes → Bytes
join [] = []
join (p ∷ ps) = p ++ join ps

abbrev pub offset : List Bytes → ℕ → ℕ
offset [] i = 0
offset (p ∷ ps) zero = 0
offset (p ∷ ps) (suc i) = length p + offset ps i

abbrev pub part : List Bytes → ℕ → Bytes
part [] i = []
part (p ∷ ps) zero = p
part (p ∷ ps) (suc i) = part ps i

abbrev pub total : List Bytes → ℕ
total [] = 0
total (p ∷ ps) = length p + total ps

pub length-join : (ps : List Bytes) → length (join ps) ≡ total ps
length-join [] = refl
length-join (p ∷ ps) = omega (arith, length-append p (join ps), length-join ps)

pub chunk-join :
    (ps : List Bytes) (i k n : ℕ)
    → offset ps i ≡ k
    → length (part ps i) ≡ n
    → chunk k n (join ps) ≡ part ps i
chunk-join [] i zero zero e l = refl
chunk-join [] i zero (suc n) e l = refl
chunk-join [] i (suc k) n e l = absurd (omega arith)
chunk-join (p ∷ ps) zero zero n e l = chunk_head n p (join ps) l
chunk-join (p ∷ ps) zero (suc k) n e l = absurd (omega arith)
chunk-join (p ∷ ps) (suc i) k n e l =
    chunk_skip (length p) p (join ps) k n refl (omega arith)
    ∙ chunk-join ps i (k - length p) n (omega arith) l

pub get_or-chunk : (k : ℕ) (xs : Bytes) (b : ℕ) → chunk k 1 xs ≡ b ∷ [] → get_or xs k 0 ≡ b
get_or-chunk zero [] b h = absurd (omega (arith, ap length h))
get_or-chunk (suc k) [] b h = absurd (omega (arith, ap length h))
get_or-chunk zero (x ∷ xs) b h = ap (λ l. get_or l 0 0) h
get_or-chunk (suc k) (x ∷ xs) b h = get_or-chunk k xs b h

pub slice-Returns {ℓ} :
    {E : Type 0} {B : Type ℓ} (xs : Bytes) (lo hi : ℕ) (f : Bytes → Result E B)
    → lo ≤ hi
    → hi ≤ length xs
    → (length (chunk lo (hi - lo) xs) ≡ hi - lo → Returns (f (chunk lo (hi - lo) xs)))
    → Returns (slice xs lo hi >>= f)
slice-Returns xs lo hi f h k r =
    rw (slice_ok xs lo hi h k) (r (length-chunk lo (hi - lo) xs (omega arith)))

pub index-Returns {ℓ} :
    {E : Type 0} {B : Type ℓ} (xs : Bytes) (i : ℕ) (f : ℕ → Result E B)
    → i < length xs
    → ((b : ℕ) → Returns (f b))
    → Returns (index xs i >>= f)
index-Returns xs i f h r = rw (index_ok xs i h) (r (get_or xs i 0))
