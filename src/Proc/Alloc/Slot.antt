-- ===== src/Proc/Alloc/Slot.antt =====
-- What `allocproc` of code/proc.c returns, and what it changes, on each of its three ways out.
use os_ex.Shared.{
  ℕ, ◌+◌, ◌-◌, ◌≡◌, refl, ◌≢◌, ◌⊎◌, inl, inr, true, false, ◌==◌, All, modify, get_elem?, some, none,
  arith, Bool-cases, get_elem?-modify_self, get_elem?-modify_ne, ◌∙◌, find_index-cases, Found,
  UpdatedAt, pos, add_int, length-modify, find_index,
}
use os_ex.Kalloc.{Kmem, kalloc}
use os_ex.Proc.{Proc, Procs, unused, is_unused}
use os_ex.Proc.Alloc.{
  Table, alloc_slot, alloc_stack, allocproc, fresh_proc, tf_at, context_at, eip_offset,
}

modify-modify-UpdatedAt :
    (P : Proc → Type 0) (xs : Procs) (i : ℕ) (f g : Proc → Proc) (x : Proc)
    → get_elem? xs i ≡ some x
    → P (g (f x))
    → UpdatedAt P i xs (modify (modify xs i f) i g)
modify-modify-UpdatedAt P xs i f g x e h = record {
  entry = g (f x);
  there = get_elem?-modify_self (modify xs i f) i g (f x) (get_elem?-modify_self xs i f x e);
  holds = h;
  others = λ j ne. get_elem?-modify_ne (modify xs i f) i j g ne ∙ get_elem?-modify_ne xs i j f ne;
  same_length = length-modify (modify xs i f) i g ∙ length-modify xs i f;
}

module _ (trapret forkret : ℕ) (t : Table) (k : Kmem) where
  -- No entry is free: nothing changes.
  abbrev pub TableFull : Type 0
  TableFull =
      (allocproc trapret forkret t k ≡ (none, t, k)) × All (λ p. is_unused p.state ≡ false) t.procs

  -- No page is free: the entry is given back, the pid is spent.
  pub record NoStack (i : ℕ) (f : Found (λ p. is_unused p.state) t.procs i) : Type 0 where
    pub no_page : (kalloc k).0 ≡ 0
    pub fails : (allocproc trapret forkret t k).0 ≡ none
    pub given_back :
        UpdatedAt
          (λ q. q ≡ record (fresh_proc t.next_pid f.entry) { kstack = 0; state = unused })
          i
          t.procs
          (allocproc trapret forkret t k).1.procs
    pub spent : (allocproc trapret forkret t k).1.next_pid ≡ add_int t.next_pid (pos 1)

  -- The process stands in the first free entry, with the next pid and a stack of its own page.
  pub record Allocated (i : ℕ) (f : Found (λ p. is_unused p.state) t.procs i) : Type 0 where
    pub page : ℕ
    pub from_kalloc : ((kalloc k).0 ≡ page) × (page ≢ 0)
    pub index : (allocproc trapret forkret t k).0 ≡ some i
    pub made :
        UpdatedAt
          (λ q. q ≡ record (fresh_proc t.next_pid f.entry) {
            kstack = page;
            tf = tf_at page;
            context = context_at page;
          })
          i
          t.procs
          (allocproc trapret forkret t k).1.procs
    pub spent : (allocproc trapret forkret t k).1.next_pid ≡ add_int t.next_pid (pos 1)
    pub starts_at :
        (allocproc trapret forkret t k).2.memory (context_at page + eip_offset) ≡ forkret
    pub returns_to : (allocproc trapret forkret t k).2.memory (tf_at page - 4) ≡ trapret

  -- The table after the part under the lock.
  abbrev pub taken : ℕ → Table
  taken i = record t {
    procs = modify t.procs i (fresh_proc t.next_pid);
    next_pid = add_int t.next_pid (pos 1);
  }

  alloc_slot-found :
      (i : ℕ)
      → find_index (λ p. is_unused p.state) t.procs ≡ some i
      → alloc_slot t ≡ (some i, taken i)
  unfolding alloc_slot
  alloc_slot-found i e = rw (e, alloc_slot)

  alloc_slot-full : find_index (λ p. is_unused p.state) t.procs ≡ none → alloc_slot t ≡ (none, t)
  unfolding alloc_slot
  alloc_slot-full e = rw (e, alloc_slot)

  pub allocproc-found :
      (i : ℕ)
      → find_index (λ p. is_unused p.state) t.procs ≡ some i
      → allocproc trapret forkret t k ≡ alloc_stack trapret forkret i (taken i) k
  unfolding allocproc
  allocproc-found i e = rw (alloc_slot-found i e, allocproc, alloc_slot-found i e)

  no_stack :
      (i : ℕ) (f : Found (λ p. is_unused p.state) t.procs i)
      → allocproc trapret forkret t k ≡ alloc_stack trapret forkret i (taken i) k
      → ((kalloc k).0 == 0) ≡ true
      → NoStack i f
  unfolding alloc_stack
  no_stack i f e z = record {
    no_page = ground arith;
    fails = rw (e, z);
    given_back =
        rw (e, z)
          (modify-modify-UpdatedAt _ t.procs i (fresh_proc t.next_pid)
            (λ p. record p { kstack = 0; state = unused }) f.entry f.there refl);
    spent = rw (e, z);
  }

  pub with_stack :
      (i : ℕ) (f : Found (λ p. is_unused p.state) t.procs i)
      → allocproc trapret forkret t k ≡ alloc_stack trapret forkret i (taken i) k
      → ((kalloc k).0 == 0) ≡ false
      → Allocated i f
  unfolding alloc_stack
  with_stack i f e z = record {
    page = (kalloc k).0;
    from_kalloc = (refl, ground arith);
    index = rw (e, z);
    made =
        rw (e, z)
          (modify-modify-UpdatedAt _ t.procs i (fresh_proc t.next_pid)
            (λ p. record p {
              kstack = (kalloc k).0;
              tf = tf_at (kalloc k).0;
              context = context_at (kalloc k).0;
            })
            f.entry f.there refl);
    spent = rw (e, z);
    starts_at = rw (e, z) (ground arith);
    returns_to = rw (e, z) (ground arith);
  }

  -- `allocproc` fails if no entry is free or no page is free, and else makes a process.
  allocproc_lem :
      TableFull
      ⊎ ((i : ℕ) × (f : Found (λ p. is_unused p.state) t.procs i) × (NoStack i f ⊎ Allocated i f))
  unfolding allocproc
  allocproc_lem = elim (find_index-cases (λ p. is_unused p.state) t.procs) [
    | inl (e, all) ↦ inl (rw (alloc_slot-full e, allocproc, alloc_slot-full e), all)
    | inr (i, e, f) ↦ inr (
      i,
      f,
      elim (Bool-cases ((kalloc k).0 == 0)) [
        | inl z ↦ inl (no_stack i f (allocproc-found i e) z)
        | inr z ↦ inr (with_stack i f (allocproc-found i e) z)
      ],
    )
  ]
