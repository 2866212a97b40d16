-- ===== src/Kv/Persist.antt =====
-- kv/persist.go: `PersistToTransaction` writes what `LoadFromTransaction` needs to rebuild the store.
use kive.Prelude.{
  ◌<◌, ◌≡◌, refl, Bool, true, false, ◌&&◌, Option, none, some, [], ◌∷◌, arith, Text, ◌==◌,
  if◌then◌else◌, nat_key, text_key, Bool-cases, inl, inr, ◌∙◌, get, Distinct,
}
use kive.Prelude.Int.{ℤ}
use kive.Kv.{Entry, Namespace, Store, find}
use kive.Kv.Table.{
  Row, Table, max_version, row_entry, entry_row, persist_entry, persist_keys, and_then_entries,
}
use kive.Kv.Reload.{stored, stored-append, max_version-append_new, stored_version, stored-none}
use kive.Kv.Sync.{Evolves, Op, apply, apply-Evolves}

-- How an entry of a key stands to the table: what is not marked as changed is what the table holds,
-- and what is marked has a version above all rows of the key.
abbrev pub SyncedAt : Table → Text → Text → Option Entry → Type 0
SyncedAt rows ns key none = stored rows ns key ≡ none
SyncedAt rows ns key (some e) =
    (e.changed ≡ true → max_version ns key rows < e.version)
    × (e.changed ≡ false → stored rows ns key ≡ some e)

abbrev pub IsSynced : Table → Store → Type 0
IsSynced rows s = (ns key : Text) → SyncedAt rows ns key (find s ns key)

SyncedAt-Evolves :
    (rows : Table) (ns key : Text) (o o' : Option Entry)
    → Evolves o o'
    → SyncedAt rows ns key o
    → SyncedAt rows ns key o'
SyncedAt-Evolves rows ns key none none ev h = h
SyncedAt-Evolves rows ns key none (some e) ev h =
    (λ c. omega (arith, stored-none rows ns key h, ev.0), λ c. absurd (cc))
SyncedAt-Evolves rows ns key (some e) none ev h = elim ev [ ]
SyncedAt-Evolves rows ns key (some e) (some e') (inl same) h = rw same h
SyncedAt-Evolves rows ns key (some e) (some e') (inr (v, c)) h =
    (λ _. ground (arith, stored_version rows ns key e), λ d. absurd (cc))

-- Every operation of the store keeps it synced with the table.
pub apply-IsSynced :
    (rows : Table) (s : Store) (op : Op) → IsSynced rows s → IsSynced rows (apply s op)
apply-IsSynced rows s op h ns key =
    SyncedAt-Evolves rows ns key (find s ns key) (find (apply s op) ns key)
      (apply-Evolves s op ns key) (h ns key)

-- The entry that a successful persist leaves in memory.
abbrev pub settle : ℤ → Entry → Entry
settle created_at e =
    if e.changed then record e { changed = false; last_modified_time = created_at } else e

abbrev pub settled : ℤ → Option Entry → Option Entry
settled created_at none = none
settled created_at (some e) = some (settle created_at e)

abbrev pub Same : Table → Table → Text → Text → Type 0
Same rows rows' n k =
    (stored rows' n k ≡ stored rows n k) × (max_version n k rows' ≡ max_version n k rows)

module _ (accepts : Row → Bool) (created_at : ℤ) where
  persist_entry_lem :
      (ns key : Text) (e : Entry) (rows : Table)
      → (persist_entry accepts created_at ns key e rows).2 ≡ true
      → SyncedAt rows ns key (some e)
      → ((persist_entry accepts created_at ns key e rows).0 ≡ settle created_at e)
        × (stored (persist_entry accepts created_at ns key e rows).1 ns key
            ≡ some (settle created_at e))
        × ((n k : Text)
            → (ns == n && key == k) ≡ false
            → Same rows (persist_entry accepts created_at ns key e rows).1 n k)
  unfolding persist_entry entry_row row_entry
  persist_entry_lem ns key e rows done h = elim (Bool-cases e.changed) [
    | inl c ↦
        let low = h.0 c in
        let row = entry_row created_at ns key e in
        (
          ground arith,
          ground (arith, stored-append rows row ns key low),
          λ n k other.
              ground
                (arith, stored-append rows row n k low, max_version-append_new rows row n k low),
        )
    | inr c ↦ (ground arith, ground (arith, h.1 c), λ n k other. rw c (refl, refl))
  ]

  and_then_entries_done :
      (key : Text) (p : Entry × Table × Bool) (m : Namespace)
      (next : Table → Namespace × Table × Bool)
      → (and_then_entries key p m next).2 ≡ true
      → (p.2 ≡ true)
        × ((next p.1).2 ≡ true)
        × ((and_then_entries key p m next).0 ≡ (key, p.0) ∷ (next p.1).0)
        × ((and_then_entries key p m next).1 ≡ (next p.1).1)
  and_then_entries_done key (e, rows, false) m next h = absurd (cc)
  and_then_entries_done key (e, rows, true) m next h = (refl, h, refl, refl)

  -- What a successful persist of the namespace `ns` does to its entries and to the table.
  pub record Persisted (ns : Text) (m : Namespace) (rows : Table) (m' : Namespace) (rows' : Table)
      : Type 0 where
    pub entries : (k : Text) → get k m' ≡ settled created_at (get k m)
    pub written :
        (k : Text) (e : Entry) → get k m ≡ some e → stored rows' ns k ≡ some (settle created_at e)
    pub others : (n k : Text) → (n ≡ ns → get k m ≡ none) → Same rows rows' n k

  abbrev pub AllSynced : Table → Text → Namespace → Type 0
  AllSynced rows ns m = (k : Text) (e : Entry) → get k m ≡ some e → SyncedAt rows ns k (some e)

  pub SyncedAt-Same :
      (rows rows' : Table) (n k : Text) (e : Entry)
      → Same rows rows' n k
      → SyncedAt rows n k (some e)
      → SyncedAt rows' n k (some e)
  SyncedAt-Same rows rows' n k e (a, b) (h, g) = (λ c. rw b (h c), λ c. rw a (g c))

  pub Same-trans : (a b c : Table) (n k : Text) → Same a b n k → Same b c n k → Same a c n k
  Same-trans a b c n k h g = (g.0 ∙ h.0, g.1 ∙ h.1)

  Persisted-cons :
      (ns key : Text) (e e' : Entry) (m m' : Namespace) (rows middle rows' : Table)
      → get key m ≡ none
      → e' ≡ settle created_at e
      → stored middle ns key ≡ some (settle created_at e)
      → ((n k : Text) → (ns == n && key == k) ≡ false → Same rows middle n k)
      → Persisted ns m middle m' rows'
      → Persisted ns ((key, e) ∷ m) rows ((key, e') ∷ m') rows'
  unfolding get
  Persisted-cons ns key e e' m m' rows middle rows' new is st other rest = record {
    entries = λ k. ground (arith, rest.entries k);
    written = λ k e₁ z. ground (arith, rest.written k e₁, (rest.others ns key (λ _. new)).0);
    others = λ n k z. elim (text_key.dec n ns) [
      | yes here ↦
          let absent = z here in
          let later : get k m ≡ none = ground arith in
          let away : (ns == n && key == k) ≡ false = ground arith in
          Same-trans rows middle rows' n k (other n k away) (rest.others n k (λ _. later))
      | no there ↦
          let away : (ns == n && key == k) ≡ false = ground arith in
          Same-trans rows middle rows' n k (other n k away)
            (rest.others n k (λ p. absurd (there p)))
    ];
  }

  AllSynced-tail :
      (ns key : Text) (e : Entry) (m : Namespace) (rows middle : Table)
      → get key m ≡ none
      → ((n k : Text) → (ns == n && key == k) ≡ false → Same rows middle n k)
      → AllSynced rows ns ((key, e) ∷ m)
      → AllSynced middle ns m
  unfolding get
  AllSynced-tail ns key e m rows middle new other h k e' z =
      let away : (key == k) ≡ false = ground arith in
      let far : (ns == ns && key == k) ≡ false = ground arith in
      SyncedAt-Same rows middle ns k e' (other ns k far) (h k e' (ground arith))

  pub persist_keys-Persisted :
      (ns : Text) (m : Namespace) (rows : Table)
      → Distinct m
      → AllSynced rows ns m
      → (persist_keys accepts created_at ns m rows).2 ≡ true
      → Persisted ns m rows
          (persist_keys accepts created_at ns m rows).0
          (persist_keys accepts created_at ns m rows).1
  unfolding persist_keys
  persist_keys-Persisted ns [] rows d h done = record {
    entries = λ k. unfold get in refl;
    written = λ k e z. absurd (unfold get in (cc));
    others = λ n k z. (refl, refl);
  }
  persist_keys-Persisted ns ((key, e) ∷ m) rows d h done =
      let p = persist_entry accepts created_at ns key e rows in
      let next = persist_keys accepts created_at ns m in
      let (done1, done2, eq0, eq1) = and_then_entries_done key p m next done in
      let (is, st, other) =
        persist_entry_lem ns key e rows done1 (h key e (unfold get in (ground arith))) in
      let rest =
        persist_keys-Persisted ns m p.1 d.1 (AllSynced-tail ns key e m rows p.1 d.0 other h)
          done2 in
      rw (eq0, eq1)
        (Persisted-cons ns key e p.0 m (next p.1).0 rows p.1 (next p.1).1 d.0 is st other rest)
