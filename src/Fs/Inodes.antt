-- ===== src/Fs/Inodes.antt =====
-- fs/inode.c: inodes in memory, which are shared through a hash table.
-- One super block is open, so the test `in->sb == sb` holds. An `i_nr` and an `i_count` are bit
-- patterns of an `int`. What `calloc` returns is an argument; the malloc of the table succeeds.
pub mod Cached
pub mod Creates
pub mod Gets
pub mod Init
pub mod Links
pub mod Puts
use ece344_operating_systems.Base.{
  ℕ, zero, suc, ◌+◌, ◌-◌, ◌*◌, ◌/◌, ◌%◌, ◌^◌, Bool, true, false, not, ◌&&◌, Option, none, some, ltb,
  leb, ◌==◌, if◌then◌else◌, List, [], ◌∷◌,
}
use ece344_operating_systems.Base.Int.{ℤ, pos, is_neg, to_nat, int_of_word, word_of_int}
use ece344_operating_systems.Base.Run.{
  Run, ok, halt, aborted, exited, faulted, Cmd, pure, ◌>>=◌, ◌>>◌, modify, assert,
}
use ece344_operating_systems.Base.Store.{Ptr, null, write, is_null}
use ece344_operating_systems.Fs.Super.{
  SuperBlock, nr_inode_blocks, inodes_per_block, no_space, minus_one, get_inode_freemap,
  put_inode_freemap,
}
use ece344_operating_systems.Fs.File.{
  nr_direct_blocks, Dinode, Inode, File, on_file_dev, update_din, set_dirty, get_din,
}
use ece344_operating_systems.Fs.Dinode.{load_inode, sync_inode}
use ece344_operating_systems.Fs.Truncate.{free_blocks}
use ece344_operating_systems.Fs.Hlist.{Hlists}

-- The inodes in memory by their address, and the table that links them.
pub record Cache (Heads : Type 0) : Type 0 where
  pub super : SuperBlock
  pub table : Option Heads
  pub inodes : Ptr → Option Inode

-- 1 << INODE_HASH_SHIFT
abbrev pub inode_hash_shift : ℕ
inode_hash_shift = 8

abbrev pub inode_hash_size : ℕ
inode_hash_size = 2 ^ inode_hash_shift

abbrev pub is_empty : List Ptr → Bool
is_empty [] = true
is_empty (_ ∷ _) = false

-- bzero(&in->in, sizeof(struct dinode))
abbrev pub zero_dinode : Dinode
zero_dinode = record {
  i_type = 0;
  i_block_nr = λ _. pos 0;
  i_indirect = pos 0;
  i_dindirect = pos 0;
  block_count = 0;
  i_size = 0;
}

module _ {Heads : Type 0} where
  abbrev pub found_table :
      {A : Type 0} → (Heads → Cmd (Cache Heads) A) → Option Heads → Cmd (Cache Heads) A
  found_table k none = λ _. halt faulted
  found_table k (some h) = k h

  abbrev pub with_table : {A : Type 0} → (Heads → Cmd (Cache Heads) A) → Cmd (Cache Heads) A
  with_table k s = found_table k s.table s

  abbrev pub set_table : Heads → Cmd (Cache Heads) (Unit {0})
  set_table h = modify λ s. record s { table = some h }

  abbrev pub found_inode :
      {A : Type 0} → (Inode → Cmd (Cache Heads) A) → Option Inode → Cmd (Cache Heads) A
  found_inode k none = λ _. halt faulted
  found_inode k (some i) = k i

  abbrev pub with_inode : {A : Type 0} → Ptr → (Inode → Cmd (Cache Heads) A) → Cmd (Cache Heads) A
  with_inode p k s = found_inode k (s.inodes p) s

  abbrev pub set_inode : Ptr → Option Inode → Cmd (Cache Heads) (Unit {0})
  set_inode p i = modify λ s. record s { inodes = write s.inodes p i }

  abbrev pub set_file : {A : Type 0} → Ptr → Cache Heads → Run File A → Run (Cache Heads) A
  set_file p s (ok a f) =
      ok a (record s { super = f.super; inodes = write s.inodes p (some f.node) })
  set_file p s (halt h) = halt h

  -- A call on the inode at `p`.
  abbrev pub on_inode : {A : Type 0} → Ptr → Cmd File A → Cmd (Cache Heads) A
  on_inode p m = with_inode p λ i s. set_file p s (m (record { node = i; super = s.super }))

  abbrev pub set_cache_super : {A : Type 0} → Cache Heads → Run SuperBlock A → Run (Cache Heads) A
  set_cache_super s (ok a b) = ok a (record s { super = b })
  set_cache_super s (halt h) = halt h

  abbrev pub on_sb : {A : Type 0} → Cmd SuperBlock A → Cmd (Cache Heads) A
  on_sb m s = set_cache_super s (m s.super)

  -- hlist_for_each_entry, over the nodes that are left
  unfoldable pub find_loop : List Ptr → ℕ → Cmd (Cache Heads) Ptr
  find_loop [] inode_nr = pure null
  find_loop (p ∷ ps) inode_nr =
      let rest = find_loop ps inode_nr in
      with_inode p λ i. if i.i_nr == inode_nr then pure p else rest

module _ {Heads : Type 0} (api : Hlists Heads) where
  -- for (i = 0; i < inode_hash_size; i++) INIT_HLIST_HEAD(&inode_hash_table[i])
  unfoldable pub init_loop : ℕ → ℕ → Heads → Heads
  init_loop zero i h = h
  init_loop (suc rounds) i h = init_loop rounds (i + 1) (api.init_hlist_head i h)

  unfoldable pub inode_hash_init : Cmd (Cache Heads) (Unit {0})
  unfolding init_loop
  inode_hash_init = set_table (init_loop inode_hash_size 0 api.new_heads)

  -- assert(hlist_empty(&inode_hash_table[i])) for each head
  unfoldable pub all_empty : ℕ → ℕ → Heads → Bool
  all_empty zero i h = true
  all_empty (suc rounds) i h = is_empty (api.nodes h i) && all_empty rounds (i + 1) h

  abbrev pub destroy_table : Option Heads → Cmd (Cache Heads) (Unit {0})
  destroy_table none = λ _. halt aborted
  destroy_table (some h) = do
    assert (all_empty inode_hash_size 0 h)
    modify λ s. record s { table = none }

  -- The pointer to the table stays in the source, but what it points to is freed.
  unfoldable pub inode_hash_destroy : Cmd (Cache Heads) (Unit {0})
  unfolding all_empty
  inode_hash_destroy s = destroy_table s.table s

  abbrev pub inode_hashfn : ℕ → ℕ
  inode_hashfn nr = api.hash_int nr inode_hash_shift

  unfoldable pub inode_hash_find : ℕ → Cmd (Cache Heads) Ptr
  unfolding find_loop
  inode_hash_find inode_nr =
      with_table λ h. find_loop (api.nodes h (inode_hashfn inode_nr)) inode_nr

  unfoldable pub inode_hash_insert : Ptr → Cmd (Cache Heads) (Unit {0})
  inode_hash_insert p =
      with_inode p λ i. with_table λ h. set_table (api.hlist_add_head p (inode_hashfn i.i_nr) h)

  unfoldable pub inode_hash_remove : Ptr → Cmd (Cache Heads) (Unit {0})
  inode_hash_remove p = with_table λ h. set_table (api.hlist_del p h)

  -- The inode is read before it is linked.
  abbrev pub new_inode : ℕ → Ptr → Cmd (Cache Heads) Ptr
  new_inode inode_nr new = if is_null new then (λ _. halt exited) else do
    set_inode new (some (record { din = zero_dinode; dirty = false; i_nr = inode_nr; i_count = 1 }))
    on_inode new load_inode
    inode_hash_insert new
    pure new

  unfoldable pub get_inode : ℕ → Ptr → Cmd (Cache Heads) Ptr
  unfolding inode_hash_find load_inode inode_hash_insert
  get_inode inode_nr new = do
    p ← inode_hash_find inode_nr
    if is_null p then new_inode inode_nr new else do
      with_inode p λ i. set_inode p (some (record i { i_count = (i.i_count + 1) % 2 ^ 32 }))
      pure p

  -- The last reference frees the inode.
  unfoldable pub put_inode : Ptr → Cmd (Cache Heads) (Unit {0})
  unfolding inode_hash_remove
  put_inode p = with_inode p λ i. do
    assert (not i.dirty)
    let count = (i.i_count + minus_one) % 2 ^ 32
    set_inode p (some (record i { i_count = count }))
    if count == 0 then (do inode_hash_remove p; set_inode p none) else pure tt

  -- The result and what `*inp` gets, if it gets something.
  unfoldable pub create_inode : ℕ → Ptr → Cmd (Cache Heads) (ℤ × Option Ptr)
  unfolding get_inode
  create_inode type new = do
    inode_nr ← on_sb get_inode_freemap
    if is_neg inode_nr
        then pure (inode_nr, none)
        else if leb nr_inode_blocks (to_nat inode_nr / inodes_per_block)
        then (do on_sb (put_inode_freemap (to_nat inode_nr)); pure (no_space, none))
        else do
          p ← get_inode (to_nat inode_nr) new
          on_inode p (modify λ f. set_dirty (update_din (λ d. record d { i_type = type }) f))
          pure (pos 0, some p)

  unfoldable pub remove_inode : Ptr → Cmd (Cache Heads) (Unit {0})
  unfolding sync_inode put_inode
  remove_inode p = do
    on_inode p free_blocks
    on_inode p (get_din λ d. assert (d.block_count == 0))
    on_inode p (modify λ f. set_dirty (update_din (λ _. zero_dinode) f))
    with_inode p λ i. on_sb (put_inode_freemap i.i_nr)
    on_inode p sync_inode
    put_inode p
