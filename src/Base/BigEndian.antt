-- ===== src/Base/BigEndian.antt =====
-- encoding/binary's BigEndian: fixed-width unsigned integers as bytes, most significant first.
use Prim.Native.Nat.{ℕ, zero, suc, ◌+◌, ◌*◌, ◌/◌, ◌%◌, ◌^◌, ◌<◌}
use mathlib.Core.Path.{◌≡◌, refl, sym, ◌∙◌}
use mathlib.Core.Bool.{◌&&◌, ◌||◌}
use mathlib.Core.List.{[], ◌∷◌, ◌++◌}
use native.Mathlib.Omega.{arith}
use native.Mathlib.Nat.{pow-suc}
use lancelot.Base.Tests.{ltb, ◌==◌}
use lancelot.Base.Lists.{
  Bytes, AreBytes, IsByte, All-append, length, length-append, bytes_lt, bytes_eq, bytes_eq→eq,
  eq→bytes_eq,
}

-- PutUint16 and PutUint64, at `w` bytes.
unfoldable pub be_bytes : ℕ → ℕ → Bytes
be_bytes zero n = []
be_bytes (suc w) n = be_bytes w (n / 256) ++ (n % 256) ∷ []

be_loop : ℕ → Bytes → ℕ
be_loop acc [] = acc
be_loop acc (b ∷ bs) = be_loop (acc * 256 + b) bs

-- Uint16 and Uint64, of a slice of the right length.
unfoldable pub be_value : Bytes → ℕ
unfolding be_loop
be_value bs = be_loop 0 bs

be_loop-append :
    (acc : ℕ) (xs : Bytes) (b : ℕ) → be_loop acc (xs ++ b ∷ []) ≡ be_loop acc xs * 256 + b
unfolding be_loop
be_loop-append acc [] b = refl
be_loop-append acc (x ∷ xs) b = be_loop-append (acc * 256 + x) xs b

pub be_value-be_bytes : (w n : ℕ) → n < 256 ^ w → be_value (be_bytes w n) ≡ n
unfolding be_value be_bytes
be_value-be_bytes zero n h = omega arith
be_value-be_bytes (suc w) n h =
    be_loop-append 0 (be_bytes w (n / 256)) (n % 256)
    ∙ omega (arith, be_value-be_bytes w (n / 256) (omega (arith, pow-suc 256 w)))

pub length-be_bytes : (w n : ℕ) → length (be_bytes w n) ≡ w
unfolding be_bytes
length-be_bytes zero n = refl
length-be_bytes (suc w) n =
    omega
      (arith, length-append (be_bytes w (n / 256)) ((n % 256) ∷ []), length-be_bytes w (n / 256))

pub be_bytes-AreBytes : (w n : ℕ) → AreBytes (be_bytes w n)
unfolding be_bytes
be_bytes-AreBytes zero n = tt
be_bytes-AreBytes (suc w) n =
    All-append IsByte (be_bytes w (n / 256)) _ (be_bytes-AreBytes w (n / 256)) (omega arith, tt)

-- The order of two strings of one length is that of their first parts, then of what follows.
pub bytes_lt-append :
    (xs ys : Bytes) (us vs : Bytes)
    → length xs ≡ length ys
    → bytes_lt (xs ++ us) (ys ++ vs) ≡ (bytes_lt xs ys || (bytes_eq xs ys && bytes_lt us vs))
unfolding bytes_lt bytes_eq
bytes_lt-append [] [] us vs h = ground arith
bytes_lt-append [] (y ∷ ys) us vs h = absurd (omega arith)
bytes_lt-append (x ∷ xs) [] us vs h = absurd (omega arith)
bytes_lt-append (x ∷ xs) (y ∷ ys) us vs h = ground (arith, bytes_lt-append xs ys us vs)

be_bytes-eq :
    (w m n : ℕ) → m < 256 ^ w → n < 256 ^ w → bytes_eq (be_bytes w m) (be_bytes w n) ≡ (m == n)
be_bytes-eq w m n hm hn = ground (
  arith,
  be_value-be_bytes w m hm,
  be_value-be_bytes w n hn,
  bytes_eq→eq (be_bytes w m) (be_bytes w n),
  eq→bytes_eq (be_bytes w m) (be_bytes w n),
)

-- The order of the bytes is the order of the numbers.
pub be_bytes-lt :
    (w m n : ℕ) → m < 256 ^ w → n < 256 ^ w → bytes_lt (be_bytes w m) (be_bytes w n) ≡ ltb m n
unfolding be_bytes
be_bytes-lt zero m n hm hn = unfold bytes_lt in ground arith
be_bytes-lt (suc w) m n hm hn =
    let p : 256 ^ suc w ≡ 256 ^ w * 256 = pow-suc 256 w in
    let hm' : m / 256 < 256 ^ w = omega arith in
    let hn' : n / 256 < 256 ^ w = omega arith in
    bytes_lt-append (be_bytes w (m / 256)) (be_bytes w (n / 256)) ((m % 256) ∷ []) ((n % 256) ∷ [])
      (length-be_bytes w (m / 256) ∙ sym (length-be_bytes w (n / 256)))
    ∙ rw (be_bytes-lt w (m / 256) (n / 256) hm' hn', be_bytes-eq w (m / 256) (n / 256) hm' hn')
        (unfold bytes_lt in ground arith)

pub bytes_lt-append_left : (xs us vs : Bytes) → bytes_lt (xs ++ us) (xs ++ vs) ≡ bytes_lt us vs
unfolding bytes_lt
bytes_lt-append_left [] us vs = refl
bytes_lt-append_left (x ∷ xs) us vs = ground (arith, bytes_lt-append_left xs us vs)
