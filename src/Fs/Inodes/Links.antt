-- ===== src/Fs/Inodes/Links.antt =====
-- fs/inode.c: inodes that are linked in the table, and ones that take their place.
use ece344_operating_systems.Base.{
  ℕ, ◌+◌, ◌%◌, ◌^◌, ◌≡◌, ◌≢◌, ◌∙◌, sym, ap, ◌⊎◌, inl, inr, refl, true, false, none, some, ◌∷◌, ◌==◌,
  Bool-cases, arith, if◌then◌else◌,
}
use ece344_operating_systems.Base.Store.{Ptr, null, write}
use ece344_operating_systems.Fs.File.{Dinode, Inode}
use ece344_operating_systems.Fs.Hlist.{Hlists, IsHlists}
use ece344_operating_systems.Fs.Inodes.{Cache, zero_dinode, inode_hashfn}
use ece344_operating_systems.Fs.Inodes.Cached.{
  is_in, Numbered, IsCached, same_number, Numbered-write, Numbered-unwrite,
}

-- The one reference more to an inode at `p`.
abbrev pub counted : Inode → Inode
counted i = record i { i_count = (i.i_count + 1) % 2 ^ 32 }

abbrev pub hold : {Heads : Type 0} → Cache Heads → Ptr → Inode → Cache Heads
hold s p i = record s { inodes = write s.inodes p (some i) }

-- The inode that is made for number `nr`.
abbrev pub loaded : ℕ → Dinode → Inode
loaded nr din = record { din = din; dirty = false; i_nr = nr; i_count = 1 }

-- The cache in which `new` is linked, with what the device holds.
abbrev pub linked_new :
    {Heads : Type 0} → Hlists Heads → Heads → Cache Heads → ℕ → Ptr → Dinode → Cache Heads
linked_new api h s nr new din = record {
  super = s.super;
  table = some (api.hlist_add_head new (inode_hashfn api nr) h);
  inodes = write (write s.inodes new (some (loaded nr zero_dinode))) new (some (loaded nr din));
}

module _ {Heads : Type 0} {api : Hlists Heads} {h : Heads} {s : Cache Heads}
    (c : IsCached api h s) where
  -- What holds an inode of the same number keeps the table.
  pub hold-IsCached :
      (p : Ptr) (old new : Inode)
      → s.inodes p ≡ some old
      → new.i_nr ≡ old.i_nr
      → IsCached api h (hold s p new)
  hold-IsCached p old new at same = record {
    table = c.table;
    linked = λ i q lk.
        let l = c.linked i q lk in
        record {
          nr = l.nr;
          numbered = Numbered-write p new q l.nr at same l.numbered;
          bucket = l.bucket;
          ne_null = l.ne_null;
        };
    distinct = c.distinct;
    unique = λ i nr a b la lb na nb.
        c.unique i nr a b la lb (Numbered-unwrite p new a nr at same na)
          (Numbered-unwrite p new b nr at same nb);
  }

  is_in-add_head :
      IsHlists api
      → (p new : Ptr) (i j : ℕ) → is_in p (api.nodes (api.hlist_add_head new i h) j) ≡ true
      → ((p ≡ new) × (i ≡ j)) ⊎ (is_in p (api.nodes h j) ≡ true)
  is_in-add_head laws p new i j lk =
      let both : is_in p (if i == j then new ∷ api.nodes h j else api.nodes h j) ≡ true =
        rw (laws.nodes-add_head new i j h) at lk in
      elim (Bool-cases (i == j)) [
        | inl e ↦ elim (Bool-cases (p == new)) [
          | inl here ↦ inl (ground (arith, here), ground (arith, e))
          | inr there ↦ inr (ground (arith, both, e, there))
        ]
        | inr e ↦ inr (ground (arith, both, e))
      ]

  -- No linked address is one that holds nothing.
  pub linked-ne :
      (p new : Ptr) (j : ℕ)
      → is_in p (api.nodes h j) ≡ true
      → s.inodes new ≡ none
      → (p == new) ≡ false
  linked-ne p new j lk fresh = elim (Bool-cases (p == new)) [
    | inl e ↦
        let n = (c.linked j p lk).numbered in
        let at : p ≡ new = ground (arith, e) in
        let nothing : none ≡ some n.node = sym fresh ∙ sym (ap s.inodes at) ∙ n.holds in cc
    | inr e ↦ e
  ]

  new_not_in : (new : Ptr) (j : ℕ) → s.inodes new ≡ none → is_in new (api.nodes h j) ≡ false
  new_not_in new j fresh = elim (Bool-cases (is_in new (api.nodes h j))) [
    | inl e ↦ ground (arith, linked-ne new new j e fresh)
    | inr e ↦ e
  ]

  -- What is linked beside `new` is what was linked before, and `new` has the number `nr`.
  pub old_number :
      (nr new p m : ℕ) (din : Dinode)
      → (p == new) ≡ false
      → Numbered (linked_new api h s nr new din).inodes p m
      → Numbered s.inodes p m
  old_number nr new p m din ne n = record {
    node = n.node;
    holds = rw ne at n.holds;
    number = n.number;
  }

  new_number :
      (nr new m : ℕ) (din : Dinode) → Numbered (linked_new api h s nr new din).inodes new m → nr ≡ m
  new_number nr new m din n =
      same_number (record { node = loaded nr din; holds = ground arith; number = refl }) n

  -- A new inode whose number is not in the table is linked.
  pub linked_new-IsCached :
      IsHlists api
      → (nr new : ℕ) (din : Dinode) → s.inodes new ≡ none
      → new ≢ null
      → ((p : Ptr) (m : ℕ)
          → is_in p (api.nodes h (inode_hashfn api nr)) ≡ true
          → Numbered s.inodes p m
          → (m == nr) ≡ false)
      → IsCached api
          (api.hlist_add_head new (inode_hashfn api nr) h)
          (linked_new api h s nr new din)
  linked_new-IsCached laws nr new din fresh ne absent = record {
    table = refl;
    linked = λ i p lk. elim (is_in-add_head laws p new (inode_hashfn api nr) i lk) [
      | inl (at, bucket) ↦ record {
        nr = nr;
        numbered = record { node = loaded nr din; holds = rw at (ground arith); number = refl };
        bucket = bucket;
        ne_null = rw at ne;
      }
      | inr old ↦
          let l = c.linked i p old in
          record {
            nr = l.nr;
            numbered = record {
              node = l.numbered.node;
              holds = rw (linked-ne p new i old fresh) l.numbered.holds;
              number = l.numbered.number;
            };
            bucket = l.bucket;
            ne_null = l.ne_null;
          }
    ];
    distinct = λ j.
        rw (laws.nodes-add_head new (inode_hashfn api nr) j h)
          (elim (Bool-cases (inode_hashfn api nr == j)) [
            | inl e ↦ rw e (new_not_in new j fresh, c.distinct j)
            | inr e ↦ rw e (c.distinct j)
          ]);
    unique = λ i m p q lp lq np nq. elim (is_in-add_head laws p new (inode_hashfn api nr) i lp) [
      | inl (at, bucket) ↦ elim (is_in-add_head laws q new (inode_hashfn api nr) i lq) [
        | inl (at', _) ↦ at ∙ sym at'
        | inr old ↦ at ∙ clash i m q old bucket (rw at at np) nq
      ]
      | inr old ↦ elim (is_in-add_head laws q new (inode_hashfn api nr) i lq) [
        | inl (at, bucket) ↦ sym (clash i m p old bucket (rw at at nq) np) ∙ sym at
        | inr old' ↦
            c.unique i m p q old old' (old_number nr new p m din (linked-ne p new i old fresh) np)
              (old_number nr new q m din (linked-ne q new i old' fresh) nq)
      ]
    ];
  }
    where
      clash :
          (i m q : ℕ)
          → is_in q (api.nodes h i) ≡ true
          → inode_hashfn api nr ≡ i
          → Numbered (linked_new api h s nr new din).inodes new m
          → Numbered (linked_new api h s nr new din).inodes q m
          → new ≡ q
      clash i m q old bucket n nq =
          let no : (m == nr) ≡ false =
            absent q m (rw bucket old)
              (old_number nr new q m din (linked-ne q new i old fresh) nq) in
          ground (arith, no, new_number nr new m din n)
