-- ===== src/Queue/Follows.antt =====
-- What one critical section of queue.go may do to the whole map of entries: every entry lives on
-- by the changes of Queue.Life, and the counters of Enqueue do not grow.
use x_mock_mcp.Prelude.{
  ◌≤◌, ◌≡◌, sym, ap, ◌∙◌, inl, inr, String, Bool, Option, none, some, Assoc, lookup, insert,
  map_values, count_if, bit, lookup-insert, lookup-map_values, lookup-map_values-none,
  count_if-insert_le, count_if-map_values_le, lookup_cases, text_cases, arith,
}
use x_mock_mcp.Queue.Types.{Entry, Queue}
use x_mock_mcp.Queue.Ops.{is_open, in_run, is_open_in}
use x_mock_mcp.Queue.Resolve.{Codec}
use x_mock_mcp.Queue.Life.{Life, here, Life-trans, Life-Same, Life-open_le}

module _ (codec : Codec) where
  -- The same keys, and under each key an entry that lives on.
  abbrev pub Lives : Option Entry → Option Entry → Type 0
  Lives none none = Unit
  Lives none (some e') = ⊥
  Lives (some e) none = ⊥
  Lives (some e) (some e') = Life codec e e'

  -- A test that no change of an entry switches on.
  abbrev pub Stable : (Entry → Bool) → Type 0
  Stable p = (e e' : Entry) → Life codec e e' → bit (p e') ≤ bit (p e)

  pub record Follows (q q' : Queue) : Type 0 where
    pub links : (k : String) → Lives (lookup k q.entries) (lookup k q'.entries)
    pub counts : (p : Entry → Bool) → Stable p → count_if p q'.entries ≤ count_if p q.entries

  Lives-refl : (o : Option Entry) → Lives o o
  Lives-refl none = tt
  Lives-refl (some e) = here

  Lives-trans : (a b c : Option Entry) → Lives a b → Lives b c → Lives a c
  Lives-trans none none c l m = m
  Lives-trans none (some b) c l m = absurd l
  Lives-trans (some a) none c l m = absurd l
  Lives-trans (some a) (some b) none l m = absurd m
  Lives-trans (some a) (some b) (some c) l m = Life-trans codec l m

  pub Follows-refl : (q : Queue) → Follows q q
  Follows-refl q = record {
    links = λ k. Lives-refl (lookup k q.entries);
    counts = λ p st. omega arith;
  }

  pub Follows-trans : {a b c : Queue} → Follows a b → Follows b c → Follows a c
  Follows-trans {a} {b} {c} f g = record {
    links = λ k.
        Lives-trans (lookup k a.entries) (lookup k b.entries) (lookup k c.entries) (f.links k)
          (g.links k);
    counts = λ p st. omega (arith, f.counts p st, g.counts p st);
  }

  -- An overwrite of one entry by a later form of it.
  pub Follows-insert :
      {q q' : Queue} (id : String) (e e' : Entry)
      → lookup id q.entries ≡ some e
      → Life codec e e'
      → q'.entries ≡ insert id e' q.entries
      → Follows q q'
  Follows-insert {q} {q'} id e e' h l p = record {
    links = λ k. rw p (
        rw (lookup-insert id k e' q.entries) (elim (text_cases id k) [
          | inl (t, same) ↦ rw t (rw (sym (ap (λ (x : String). lookup x q.entries) same) ∙ h) l)
          | inr (t, other) ↦ rw t (Lives-refl (lookup k q.entries))
        ]));
    counts = λ r st. rw p (count_if-insert_le r id e e' q.entries h (st e e' l));
  }

  Lives-map :
      (f : Entry → Entry) (k : String) (m : Assoc Entry)
      → ((e : Entry) → Life codec e (f e))
      → Lives (lookup k m) (lookup k (map_values f m))
  Lives-map f k m all = elim (lookup_cases k m) [
    | inl absent ↦ rw (absent, lookup-map_values-none f k m absent) tt
    | inr (e, found) ↦ rw (found, lookup-map_values f k e m found) (all e)
  ]

  pub Follows-map :
      {q q' : Queue} (f : Entry → Entry)
      → ((e : Entry) → Life codec e (f e))
      → q'.entries ≡ map_values f q.entries
      → Follows q q'
  Follows-map {q} {q'} f all p = record {
    links = λ k. rw p (Lives-map f k q.entries all);
    counts = λ r st. rw p (count_if-map_values_le r f q.entries (λ e. st e (f e) (all e)));
  }

  pub Follows-same : {q q' : Queue} → q'.entries ≡ q.entries → Follows q q'
  Follows-same {q} {q'} p = record {
    links = λ k. rw p (Lives-refl (lookup k q.entries));
    counts = λ r st. rw p (omega arith);
  }

  -- The tests behind the three counters of Enqueue are such tests.
  pub is_open-Stable : Stable is_open
  is_open-Stable e e' l = Life-open_le codec l

  pub in_run-Stable : (run : String) → Stable (in_run run)
  in_run-Stable run e e' l = rw ((Life-Same codec l).run) (omega arith)

  pub is_open_in-Stable : (run : String) → Stable (is_open_in run)
  is_open_in-Stable run e e' l = rw ((Life-Same codec l).run) (ground (arith, Life-open_le codec l))
