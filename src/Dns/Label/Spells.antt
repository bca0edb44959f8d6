-- ===== src/Dns/Label/Spells.antt =====
-- What a compressed name is, as a relation, independent of how `readlabel` walks through it.
use ambrosia.Prelude.{
  ℕ, suc, ◌+◌, ◌*◌, ◌%◌, ◌≤◌, ◌<◌, ◌≡◌, some, List, [], ◌∷◌, ◌++◌, length, get_elem?,
}
use ambrosia.Dns.Memory.{slice}

-- `Spells ref buf pos hops ls stop`: at `pos` of `buf` stands a name with the labels `ls`, no more
-- than `hops` pointers are followed before the first label, and what comes behind the name in `buf`
-- is at `stop`. Pointers lead into `ref`.
pub data Spells (ref : List ℕ) : List ℕ → ℕ → ℕ → List (List ℕ) → ℕ → Type 0 where
  root :
      (buf : List ℕ) (pos hops stop : ℕ)
      → get_elem? buf pos ≡ some 0
      → stop ≡ pos + 1
      → Spells ref buf pos hops [] stop
  label :
      (buf : List ℕ) (pos hops size next : ℕ) (value : List ℕ) (ls : List (List ℕ)) (stop : ℕ)
      → get_elem? buf pos ≡ some size
      → 0 < size
      → size < 64
      → pos + size + 1 ≤ length buf
      → value ≡ slice buf (pos + 1) size
      → next ≡ pos + size + 1
      → Spells ref buf next 8 ls stop
      → Spells ref buf pos hops (value ∷ ls) stop
  pointer :
      (buf : List ℕ) (pos hops hi lo offset : ℕ) (ls : List (List ℕ)) (stop end : ℕ)
      → get_elem? buf pos ≡ some hi
      → 64 ≤ hi
      → get_elem? buf (pos + 1) ≡ some lo
      → offset ≡ hi % 64 * 256 + lo
      → offset < length ref
      → stop ≡ pos + 2
      → Spells ref ref offset hops ls end
      → Spells ref buf pos (suc hops) ls stop

-- The name as text: each label with a dot behind it.
unfoldable pub dotted : List (List ℕ) → List ℕ
dotted [] = []
dotted (l ∷ ls) = l ++ (b'.' ∷ dotted ls)
