-- ===== src/Fs/InodeExamples.antt =====
-- The theorems on inodes at concrete inputs.
use ece344_operating_systems.Base.{
  ℕ, ◌-◌, ◌*◌, ◌/◌, ◌%◌, ◌^◌, refl, true, ◌==◌, none, some, List, [], ◌∷◌, arith, if◌then◌else◌,
}
use ece344_operating_systems.Base.Int.{pos, negsuc}
use ece344_operating_systems.Base.Store.{Ptr}
use ece344_operating_systems.Fs.Mkfs.Fresh.{fresh, fresh-IsMounted, no_bits}
use ece344_operating_systems.Fs.File.{File}
use ece344_operating_systems.Fs.Dinode.{sync_inode}
use ece344_operating_systems.Fs.Dinode.Codec.{Fits}
use ece344_operating_systems.Fs.Dinode.Sync.{HasInodes, Syncs, sync_inode-Syncs}
use ece344_operating_systems.Fs.Hlist.{Hlists, IsHlists, remove}
use ece344_operating_systems.Fs.Inodes.{Cache, zero_dinode, get_inode, put_inode, create_inode}
use ece344_operating_systems.Fs.Inodes.Cached.{IsCached}
use ece344_operating_systems.Fs.Inodes.Gets.{Gets, get_inode-Gets}
use ece344_operating_systems.Fs.Inodes.Links.{linked_new, loaded, linked_new-IsCached}
use ece344_operating_systems.Fs.Inodes.Puts.{Puts, put_inode-Puts}
use ece344_operating_systems.Fs.Inodes.Creates.{Creates, create_inode-Creates}

-- A dirty inode in memory.
abbrev edited : File
edited = record {
  node = record {
    din = record {
      i_type = 1;
      i_block_nr = λ n. if n == 3 then pos 150 else pos 0;
      i_indirect = pos 151;
      i_dindirect = negsuc 0;
      block_count = 2;
      i_size = 30000;
    };
    dirty = true;
    i_nr = 200;
    i_count = 1;
  };
  super = fresh 4;
}

edited-Fits : Fits edited.node.din
edited-Fits = record {
  i_type = omega arith;
  i_block_nr = λ n h. ground arith;
  i_indirect = omega arith;
  i_dindirect = omega arith;
  block_count = omega arith;
  i_size = omega arith;
}

fresh-HasInodes : HasInodes (fresh 4)
fresh-HasInodes =
    let m = fresh-IsMounted 4 (omega arith) in
    record { start = m.layout.inode_blocks_at; sized = m.sized }

sync_inode-Syncs_example : Syncs edited (sync_inode edited)
sync_inode-Syncs_example =
    sync_inode-Syncs edited 200 refl (omega arith) fresh-HasInodes refl edited-Fits

-- Lists as functions from head to nodes, with the hash function of the list header.
abbrev pub lists : Hlists (ℕ → List Ptr)
lists = record {
  new_heads = λ _. [];
  init_hlist_head = λ i h j. if i == j then [] else h j;
  nodes = λ h i. h i;
  hlist_add_head = λ p i h j. if i == j then p ∷ h j else h j;
  hlist_del = λ p h j. remove p (h j);
  hash_int = λ n bits. n * 0x9e370001 % 2 ^ 32 / 2 ^ (32 - bits);
}

pub lists-IsHlists : IsHlists lists
lists-IsHlists = record {
  nodes-outside = λ j le. refl;
  nodes-init = λ i j h. refl;
  nodes-add_head = λ p i j h. refl;
  nodes-del = λ p j h. refl;
}

abbrev pub empty_heads : ℕ → List Ptr
empty_heads _ = []

abbrev empty_cache : Cache (ℕ → List Ptr)
empty_cache = record { super = fresh 4; table = some empty_heads; inodes = λ _. none }

empty_cache-IsCached : IsCached lists empty_heads empty_cache
empty_cache-IsCached = record {
  table = refl;
  linked = λ i p lk. ground arith;
  distinct = λ i. tt;
  unique = λ i nr p q lp lq np nq. ground arith;
}

-- Inode 7 is in memory at 100.
abbrev one_inode : Cache (ℕ → List Ptr)
one_inode = linked_new lists empty_heads empty_cache 7 100 zero_dinode

one_inode-IsCached :
    IsCached lists (lists.hlist_add_head 100 (lists.hash_int 7 8) empty_heads) one_inode
one_inode-IsCached =
    linked_new-IsCached empty_cache-IsCached lists-IsHlists 7 100 zero_dinode refl (omega arith)
      (λ p m i n. ground arith)

get_inode-Gets_example : Gets lists one_inode 7 200 (get_inode lists 7 200 one_inode)
get_inode-Gets_example =
    get_inode-Gets one_inode-IsCached lists-IsHlists 7 200 (omega arith) fresh-HasInodes refl
      (omega arith)

put_inode-Puts_example :
    Puts lists
      (lists.hlist_add_head 100 (lists.hash_int 7 8) empty_heads)
      one_inode
      100
      (loaded 7 zero_dinode)
      (put_inode lists 100 one_inode)
put_inode-Puts_example =
    put_inode-Puts one_inode-IsCached lists-IsHlists 100 (loaded 7 zero_dinode) refl refl

create_inode-Creates_example :
    Creates lists (no_bits 1) (no_bits 16) one_inode 2 (create_inode lists 2 200 one_inode)
create_inode-Creates_example =
    create_inode-Creates one_inode-IsCached (fresh-IsMounted 4 (omega arith)) lists-IsHlists 2 200
      refl (omega arith)
