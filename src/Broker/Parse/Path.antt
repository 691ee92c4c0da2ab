-- ===== src/Broker/Parse/Path.antt =====
-- The path of a request line.
use ijson.Prelude.{ℕ, ◌≡◌, refl, false, [], ◌∷◌, ◌++◌, Bytes, ◌==◌, arith, some}
use ijson.Broker.Parse.{behind_space, before_space, path_of, read_path}

-- No byte is a space.
abbrev pub IsWord : Bytes → Type 0
IsWord [] = Unit {0}
IsWord (a ∷ s) = ((a == b' ') ≡ false) × IsWord s

behind_word : (m s : Bytes) → IsWord m → behind_space (m ++ b' ' ∷ s) ≡ some s
unfolding behind_space
behind_word [] s h = refl
behind_word (a ∷ m) s h = ground (arith, behind_word m s h.1)

before_word : (p s : Bytes) → IsWord p → before_space (p ++ b' ' ∷ s) ≡ some p
unfolding before_space
before_word [] s h = refl
before_word (a ∷ p) s h = ground (arith, before_word p s h.1)

-- The path that is read from a request line of a method, a slash, a path of at least one byte and
-- a version is that path, if neither the method nor the path has a space.
pub read_path-line :
    (method : Bytes) (a : ℕ) (path version : Bytes)
    → IsWord method
    → IsWord (a ∷ path)
    → read_path (method ++ b' ' ∷ b'/' ∷ (a ∷ path ++ b' ' ∷ version)) ≡ a ∷ path
unfolding read_path path_of
read_path-line method a path version h k =
    rw
      (
        read_path,
        behind_word method (b'/' ∷ a ∷ (path ++ b' ' ∷ version)) h,
        before_word (b'/' ∷ a ∷ path) version (refl, k),
      )
      refl
