-- ===== src/Fs/Hlist.antt =====
-- The hash lists and the hash function of fs/list.h, which fs/inode.c calls.
use ece344_operating_systems.Base.{ℕ, ◌≤◌, ◌≡◌, ◌==◌, if◌then◌else◌, List, [], ◌∷◌}
use ece344_operating_systems.Base.Store.{Ptr}

-- Arrays of list heads with the objects that are linked to them. `nodes h i` is what
-- hlist_for_each_entry goes over from head `i`; `new_heads` is what malloc returned for an array of
-- 256 heads, which no list stands outside of.
pub record Hlists (Heads : Type 0) : Type 0 where
  pub new_heads : Heads
  pub init_hlist_head : ℕ → Heads → Heads
  pub nodes : Heads → ℕ → List Ptr
  pub hlist_add_head : Ptr → ℕ → Heads → Heads
  pub hlist_del : Ptr → Heads → Heads
  pub hash_int : ℕ → ℕ → ℕ

abbrev pub remove : Ptr → List Ptr → List Ptr
remove p [] = []
remove p (q ∷ qs) = let rest = remove p qs in if p == q then qs else q ∷ rest

-- An object is linked in one place at most, and unlinked from there.
pub record IsHlists {Heads : Type 0} (api : Hlists Heads) : Type 0 where
  pub nodes-outside : (j : ℕ) → 256 ≤ j → api.nodes api.new_heads j ≡ []
  pub nodes-init :
      (i j : ℕ) (h : Heads)
      → api.nodes (api.init_hlist_head i h) j ≡ (if i == j then [] else api.nodes h j)
  pub nodes-add_head :
      (p : Ptr) (i j : ℕ) (h : Heads)
      → api.nodes (api.hlist_add_head p i h) j
        ≡ (if i == j then p ∷ api.nodes h j else api.nodes h j)
  pub nodes-del :
      (p : Ptr) (j : ℕ) (h : Heads) → api.nodes (api.hlist_del p h) j ≡ remove p (api.nodes h j)
