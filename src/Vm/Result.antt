-- ===== src/Vm/Result.antt =====
-- What a call of package vm returns: a value, an error with its message, or a panic of the Go
-- runtime (an index or a slice out of range), or a loop that is still running when its fuel is
-- spent. A slice is its elements: two slices never share a
-- backing array here, and a slice expression past the length panics.
use Prim.Native.String.{String}
use Prim.Native.Char.{code}
use bazo_miner.Prelude.{
  ℕ, ◌-◌, Bool, true, false, ◌&&◌, List, [], ◌∷◌, leb, length, take, drop, get_elem?, if◌then◌else◌,
  none, some, ◌==◌,
}

abbrev pub Bytes : Type 0
Bytes = List ℕ

pub data Result {ℓ} (A : Type ℓ) : Type ℓ where
  ok : A → Result A
  err : String → Result A
  panic : Result A
  hang : Result A

infixl 5 ◌>>=◌ ◌>>◌
abbrev pub ◌>>=◌ {ℓ κ} : {A : Type ℓ} {B : Type κ} → Result A → (A → Result B) → Result B
ok a >>= f = f a
err e >>= f = err e
panic >>= f = panic
hang >>= f = hang

abbrev pub ◌>>◌ {ℓ} : {B : Type ℓ} → Result (Unit {0}) → Result B → Result B
m >> k = m >>= λ _. k

abbrev pub Done : Type 0
Done = Unit {0}

-- The bytes of a message.
unfoldable pub text : String → Bytes
text String.[] = []
text (String.◌∷◌ c s) = code c ∷ text s

-- `s[lo:hi]`
unfoldable pub slice : ℕ → ℕ → Bytes → Result Bytes
slice lo hi s = if leb lo hi && leb hi (length s) then ok (take (hi - lo) (drop lo s)) else panic

-- `s[i]`
unfoldable pub index : ℕ → Bytes → Result ℕ
index i s = elim (get_elem? s i) [ none ↦ panic | some b ↦ ok b ]

-- `bytes.Equal`
unfoldable pub bytes_equal : Bytes → Bytes → Bool
bytes_equal [] [] = true
bytes_equal [] (y ∷ ys) = false
bytes_equal (x ∷ xs) [] = false
bytes_equal (x ∷ xs) (y ∷ ys) = (x == y) && bytes_equal xs ys
