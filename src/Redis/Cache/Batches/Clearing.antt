-- ===== src/Redis/Cache/Batches/Clearing.antt =====
-- redis/cache.go: what DeleteByPattern leaves of the keys that the scan yields.
use txova_go_db.Prelude.{
  ℕ, ◌+◌, ◌≡◌, refl, sym, ap, ◌∙◌, inl, inr, Bool, true, false, ◌||◌, List, [], ◌∷◌, ◌++◌, none,
  length, leb, Bool-cases, subst, append_assoc, append-nil, arith,
}
use txova_go_db.Text.{Text}
use txova_go_db.Text.Equality.{text_eq_refl}
use txova_go_db.Text.Members.{mem, IsDistinct, total, total-append, mem-append, IsDistinct-append}
use txova_go_db.Redis.Server.{Fault, delivered}
use txova_go_db.Redis.Keyspace.{Keyspace, KeyLaws}
use txova_go_db.Redis.Cache.{Cache, prefix_key}
use txova_go_db.Redis.Cache.Batches.{
  Scan, Answer, delete_batch, finish, delete_loop, delete_by_pattern,
}

module _ (server : Keyspace) where
  open server use {Store}

  -- A key that is deleted, or one that is as it was.
  abbrev pub Clears : Bool → Text → Store → Store → Type 0
  Clears true k s s' = (server.get k s' ≡ none) × (server.smembers k s' ≡ [])
  Clears false k s s' =
      (server.get k s' ≡ server.get k s) × (server.smembers k s' ≡ server.smembers k s)

  -- The keys of the list are gone and all others are as they were.
  abbrev pub Cleared : List Text → Store → Store → Type 0
  Cleared ks s s' = (k : Text) → Clears (mem k ks) k s s'

  Clears-after :
      (b d : Bool) (k : Text) (s s1 s2 : Store)
      → Clears b k s s1
      → Clears d k s1 s2
      → Clears (b || d) k s s2
  Clears-after true true k s s1 s2 h g = g
  Clears-after true false k s s1 s2 (h, h') (g, g') = (g ∙ h, g' ∙ h')
  Clears-after false true k s s1 s2 h g = g
  Clears-after false false k s s1 s2 (h, h') (g, g') = (g ∙ h, g' ∙ h')

  Cleared-append :
      (ks js : List Text) (s s1 s2 : Store)
      → Cleared ks s s1
      → Cleared js s1 s2
      → Cleared (ks ++ js) s s2
  Cleared-append ks js s s1 s2 h g k =
      subst (λ b. Clears b k s s2) (sym (mem-append k ks js))
        (Clears-after (mem k ks) (mem k js) k s s1 s2 (h k) (g k))

  Cleared-nil : (s : Store) → Cleared [] s s
  unfolding mem
  Cleared-nil s k = (refl, refl)

  module _ (laws : KeyLaws server) where
    open laws use {del_gone, del_other, del_count, exists_iff}

    del-Cleared : (ks : List Text) (s : Store) → Cleared ks s (server.del ks s).1
    del-Cleared ks s k = by_mem (mem k ks) refl
      where
        by_mem : (b : Bool) → mem k ks ≡ b → Clears b k s (server.del ks s).1
        by_mem true m = del_gone k ks s m
        by_mem false m = del_other k ks s m

    -- A key that is as it was exists if it existed.
    exists-same :
        (k : Text) (s s' : Store) → Clears false k s s' → server.exists k s' ≡ server.exists k s
    exists-same k s s' (same, same') = elim (exists_iff k s) [
      | inl (zero_before, g, m) ↦ elim (exists_iff k s') [
        | inl (zero_after, _, _) ↦ zero_after ∙ sym zero_before
        | inr (_, inl some_value) ↦ absurd (some_value (same ∙ g))
        | inr (_, inr some_member) ↦ absurd (some_member (same' ∙ m))
      ]
      | inr (one_before, had) ↦ elim (exists_iff k s') [
        | inr (one_after, _) ↦ one_after ∙ sym one_before
        | inl (_, g, m) ↦ elim had [
          | inl some_value ↦ absurd (some_value (sym same ∙ g))
          | inr some_member ↦ absurd (some_member (sym same' ∙ m))
        ]
      ]
    ]

    total-after :
        (ks js : List Text) (s s' : Store)
        → Cleared ks s s'
        → ((k : Text) → mem k js ≡ true → mem k ks ≡ false)
        → total (λ k. server.exists k s') js ≡ total (λ k. server.exists k s) js
    unfolding mem
    total-after ks [] s s' h apart = refl
    total-after ks (j ∷ js) s s' h apart =
        let new = apart j (rw (text_eq_refl j) refl) in
        let one = exists-same j s s' (subst (λ b. Clears b j s s') new (h j)) in
        let rest = total-after ks js s s' h (λ k m. apart k (ground (arith, m))) in omega arith

    -- The keys are gone, and the count is theirs if none of them is there twice.
    abbrev Deletes : List Text → Store → ℕ → ℕ → Store → Type 0
    Deletes ks s before after s' =
        Cleared ks s s' × (IsDistinct ks → after ≡ before + total (λ k. server.exists k s) ks)

    del-Deletes :
        (ks : List Text) (before : ℕ) (s : Store)
        → Deletes ks s before (before + (server.del ks s).0) (server.del ks s).1
    del-Deletes ks before s = (del-Cleared ks s, λ d. ap (λ n. before + n) (del_count ks s d))

    Deletes-append :
        (ks js : List Text) (n n1 n2 : ℕ) (s s1 s2 : Store)
        → Deletes ks s n n1 s1
        → Deletes js s1 n1 n2 s2
        → Deletes (ks ++ js) s n n2 s2
    Deletes-append ks js n n1 n2 s s1 s2 (h, count) (g, count') = (
      Cleared-append ks js s s1 s2 h g,
      λ d.
          let (dk, dj, apart) = IsDistinct-append ks js d in
          let apart' : (k : Text) → mem k js ≡ true → mem k ks ≡ false =
            λ k m. elim (Bool-cases (mem k ks)) [ inr e ↦ e | inl e ↦ let no = apart k e in cc ] in
          let same = total-after ks js s s1 h apart' in
          let sum = total-append (λ k. server.exists k s) ks js in
          let first = count dk in let second = count' dj in omega (arith, first, second, same, sum),
    )

    module _ (faults : ℕ → Fault) (delivers : (i : ℕ) → faults i ≡ delivered) where
      delete_batch-delivered :
          (i : ℕ) (batch : List Text) (n : ℕ) (s : Store) (follow : ℕ → Store → Answer server)
          → delete_batch server (faults i) batch n s follow
            ≡ follow (n + (server.del batch s).0) (server.del batch s).1
      unfolding delete_batch
      delete_batch-delivered i batch n s follow = rw (delivers i) refl

      -- The answer has no error, and the keys are gone.
      abbrev Done : List Text → Store → ℕ → Answer server → Type 0
      Done ks s n answer = Deletes ks s n answer.0.0 answer.1 × (answer.0.1 ≡ none)

      finish-Done :
          (i : ℕ) (pending : List Text) (n : ℕ) (s : Store)
          → Done pending s n (finish server (faults i) none pending n s)
      unfolding finish
      finish-Done i [] n s = ((Cleared-nil s, λ d. omega arith), refl)
      finish-Done i (k ∷ pending) n s =
          rw (delete_batch-delivered i (k ∷ pending) n s (λ m s'. ((m, none), s')))
            (del-Deletes (k ∷ pending) n s, refl)

      delete_loop-Done :
          (i : ℕ) (ks pending : List Text) (n : ℕ) (s : Store)
          → Done (pending ++ ks) s n (delete_loop server faults none i ks pending n s)
      unfolding delete_loop
      delete_loop-Done i [] pending n s =
          subst (λ all. Done all s n (finish server (faults i) none pending n s))
            (sym (append-nil pending)) (finish-Done i pending n s)
      delete_loop-Done i (k ∷ ks) pending n s =
          let batch = pending ++ (k ∷ []) in
          let regroup = append_assoc pending (k ∷ []) ks in
          elim (Bool-cases (leb 100 (length batch))) [
            | inl full ↦
                let later =
                  delete_loop server faults none (i + 1) ks [] (n + (server.del batch s).0)
                    (server.del batch s).1 in
                let (deletes, no_error) =
                  delete_loop-Done (i + 1) ks [] (n + (server.del batch s).0)
                    (server.del batch s).1 in
                rw
                  (
                    full,
                    delete_batch-delivered i batch n s
                        (λ m s'. delete_loop server faults none (i + 1) ks [] m s'),
                  )
                  (
                    subst (λ all. Deletes all s n later.0.0 later.1) regroup
                        (Deletes-append batch ks n _ _ s _ _ (del-Deletes batch n s) deletes),
                    no_error,
                  )
            | inr part ↦ rw part (
                subst (λ all. Done all s n (delete_loop server faults none i ks batch n s)) regroup
                  (delete_loop-Done i ks batch n s))
          ]

      -- When every batch gets through and the scan ends without an error, DeleteByPattern returns no
      -- error, each key that the scan yields for the prefixed pattern is gone, and all others are as
      -- they were.
      pub delete_by_pattern-Cleared :
          (c : Cache) (scan : Scan) (pattern : Text) (s : Store)
          → scan.iter_error ≡ none
          → ((delete_by_pattern server c faults scan pattern s).0.1 ≡ none)
            × Cleared
                (scan.yields (prefix_key c pattern))
                s
                (delete_by_pattern server c faults scan pattern s).1
      unfolding delete_by_pattern
      delete_by_pattern-Cleared c scan pattern s ends =
          let ((cleared, _), no_error) =
            delete_loop-Done 0 (scan.yields (prefix_key c pattern)) [] 0 s in
          rw ends (no_error, cleared)

      -- If, moreover, the scan yields no key twice, the count that is returned is the number of the
      -- yielded keys that existed.
      pub delete_by_pattern-count :
          (c : Cache) (scan : Scan) (pattern : Text) (s : Store)
          → scan.iter_error ≡ none
          → IsDistinct (scan.yields (prefix_key c pattern))
          → (delete_by_pattern server c faults scan pattern s).0.0
            ≡ total (λ k. server.exists k s) (scan.yields (prefix_key c pattern))
      unfolding delete_by_pattern
      delete_by_pattern-count c scan pattern s ends d =
          let ((_, count), _) = delete_loop-Done 0 (scan.yields (prefix_key c pattern)) [] 0 s in
          let counted = count d in rw ends (omega (arith, counted))
