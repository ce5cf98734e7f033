-- ===== src/ExperimentLedger/Chain.antt =====
-- The chain of an experiment ledger: appends keep it valid, opening the file finds the state
-- again, a final ledger refuses appends, and the last hash determines every record.
use text.Mathlib.TextEquality.{eq_iff}
use hermes_crypto_lab.Base.{
  ℕ, ◌+◌, ◌≡◌, refl, sym, ap, ◌∙◌, String, true, not, List, [], ◌∷◌, ◌++◌, length-append, any_of,
  ==_iff, arith, length, ok, err, permission_error, raise_if-passed, >>=-eq-ok, ok_eq,
}
use hermes_crypto_lab.ExperimentLedger.{
  Unsigned, Stored, Seal, SealFile, no_seal, malformed_seal, sealed, Manifest, Ledger, zero_hash,
  same_seal, is_reserved, verify_from, verify, last_hash_of, next_sequence_of, finalized_by,
  open_ledger, next_record, append, write_seal, finalize,
}

module _ {V : Type 0} (digest : Unsigned V → String) where
  -- The state agrees with the file.
  pub record IsConsistent (l : Ledger V) : Type 0 where
    pub chained : verify digest l.records ≡ true
    pub last : l.last_hash ≡ last_hash_of digest zero_hash l.records
    pub next : l.sequence ≡ next_sequence_of digest 0 l.records

  verify_from-parts :
      (previous : String) (n : ℕ) (r : Stored V) (rest : List (Stored V))
      → verify_from digest previous n (r ∷ rest) ≡ true
      → (r.unsigned.sequence ≡ n)
        × (r.unsigned.previous_hash ≡ previous)
        × (digest r.unsigned ≡ r.record_hash)
        × (verify_from digest r.record_hash (n + 1) rest ≡ true)
  unfolding verify_from
  verify_from-parts previous n r rest h = (
    (==_iff r.unsigned.sequence n).0 (ground arith),
    (eq_iff r.unsigned.previous_hash previous).0 (ground arith),
    (eq_iff (digest r.unsigned) r.record_hash).0 (ground arith),
    ground arith,
  )

  verify_from-append :
      (previous : String) (n : ℕ) (rs : List (Stored V)) (r : Stored V)
      → verify_from digest previous n rs ≡ true
      → r.unsigned.sequence ≡ next_sequence_of digest n rs
      → r.unsigned.previous_hash ≡ last_hash_of digest previous rs
      → digest r.unsigned ≡ r.record_hash
      → verify_from digest previous n (rs ++ (r ∷ [])) ≡ true
  unfolding verify_from next_sequence_of last_hash_of
  verify_from-append previous n [] r h s p d =
      rw ((==_iff _ _).1 s, (eq_iff _ _).1 p, (eq_iff _ _).1 d) refl
  verify_from-append previous n (x ∷ rs) r h s p d =
      let (number, link, hash, rest) = verify_from-parts previous n x rs h in
      let tail =
        verify_from-append x.record_hash (n + 1) rs r rest
          (s ∙ ap (λ (k : ℕ). next_sequence_of digest (k + 1) rs) number) p d in
      rw ((==_iff _ _).1 number, (eq_iff _ _).1 link, (eq_iff _ _).1 hash) tail

  last_hash_of-append :
      (before : String) (rs : List (Stored V)) (r : Stored V)
      → last_hash_of digest before (rs ++ (r ∷ [])) ≡ r.record_hash
  unfolding last_hash_of
  last_hash_of-append before [] r = refl
  last_hash_of-append before (x ∷ rs) r = last_hash_of-append x.record_hash rs r

  next_sequence_of-append :
      (before : ℕ) (rs : List (Stored V)) (r : Stored V)
      → next_sequence_of digest before (rs ++ (r ∷ [])) ≡ r.unsigned.sequence + 1
  unfolding next_sequence_of
  next_sequence_of-append before [] r = refl
  next_sequence_of-append before (x ∷ rs) r = next_sequence_of-append (x.unsigned.sequence + 1) rs r

  -- An append that returns, to a file that is a valid chain and that the state agrees with, keeps it
  -- so, and adds one record to it.
  pub append-IsConsistent :
      (now : String) (payload : List (String × V)) (l l' : Ledger V)
      → IsConsistent l
      → append digest now payload l ≡ ok l'
      → IsConsistent l' × (length l'.records ≡ length l.records + 1)
  unfolding append
  append-IsConsistent now payload l l' h e =
      let (_, e1) = raise_if-passed l.finalized _ _ e in
      let (_, done) = raise_if-passed (any_of (λ (key, value). is_reserved key) payload) _ _ e1 in
      let r : Stored V = record {
        unsigned = next_record digest l now payload;
        record_hash = digest (next_record digest l now payload);
      } in
      rw (← ok_eq _ _ done) (
        record {
          chained = verify_from-append zero_hash 0 l.records r h.chained h.next h.last refl;
          last = sym (last_hash_of-append zero_hash l.records r);
          next = sym (next_sequence_of-append 0 l.records r);
        },
        length-append l.records (r ∷ []),
      )

  -- Records at the same place in two files that have the same hash are the same.
  abbrev pub NoCollision : List (Stored V) → List (Stored V) → Type 0
  NoCollision (x ∷ xs) (y ∷ ys) =
      (digest x.unsigned ≡ digest y.unsigned → x.unsigned ≡ y.unsigned) × NoCollision xs ys
  NoCollision _ _ = Unit

  same_chain :
      (p q : String) (n m : ℕ) (xs ys : List (Stored V))
      → NoCollision xs ys
      → length xs ≡ length ys
      → verify_from digest p n xs ≡ true
      → verify_from digest q m ys ≡ true
      → last_hash_of digest p xs ≡ last_hash_of digest q ys
      → (p ≡ q) × (xs ≡ ys)
  unfolding last_hash_of
  same_chain p q n m [] [] safe k h h' e = (e, refl)
  same_chain p q n m [] (y ∷ ys) safe k h h' e = absurd (omega arith)
  same_chain p q n m (x ∷ xs) [] safe k h h' e = absurd (omega arith)
  same_chain p q n m (x ∷ xs) (y ∷ ys) safe k h h' e =
      let (_, link, hash, rest) = verify_from-parts p n x xs h in
      let (_, link', hash', rest') = verify_from-parts q m y ys h' in
      let (same_hash, same_rest) =
        same_chain x.record_hash y.record_hash (n + 1) (m + 1) xs ys safe.1 (omega arith) rest rest'
          e in
      let same : x.unsigned ≡ y.unsigned = safe.0 (hash ∙ same_hash ∙ sym hash') in
      let head : x ≡ y = cc in
      (sym link ∙ ap (λ (u : Unsigned V). u.previous_hash) same ∙ link', cc)

  -- Two valid files of as many records that end in the same hash are the same, record by record,
  -- unless two different records at the same place have the same hash.
  pub verify-injective :
      (xs ys : List (Stored V))
      → NoCollision xs ys
      → length xs ≡ length ys
      → verify digest xs ≡ true
      → verify digest ys ≡ true
      → last_hash_of digest zero_hash xs ≡ last_hash_of digest zero_hash ys
      → xs ≡ ys
  verify-injective xs ys safe k h h' e = (same_chain zero_hash zero_hash 0 0 xs ys safe k h h' e).1

  same_seal_refl : (s : Seal) → same_seal s s ≡ true
  same_seal_refl s = rw ((eq_iff s.final_hash s.final_hash).1 refl) (ground arith)

  write_seal-final :
      (s : Seal) (f g : SealFile) (m : Manifest)
      → write_seal digest s f ≡ ok g
      → finalized_by digest g m s.final_hash s.record_count ≡ ok true
  unfolding write_seal finalized_by
  write_seal-final s no_seal g m e = rw (← ok_eq _ _ e, same_seal_refl s) refl
  write_seal-final s malformed_seal g m e = absurd (cc e)
  write_seal-final s (sealed existing) g m e =
      let (same, done) = raise_if-passed (not (same_seal existing s)) _ _ e in
      let agrees : same_seal existing s ≡ true = ground arith in rw (← ok_eq _ _ done, agrees) refl

  -- A consistent ledger that is finalized is found final when it is opened again, whatever
  -- manifest there is, with the same records and last hash, and refuses every append.
  pub finalize-open_ledger :
      (l l' : Ledger V) (m : Manifest) (now : String) (payload : List (String × V))
      → IsConsistent l
      → finalize digest l ≡ ok l'
      → open_ledger digest l'.records l'.seal m ≡ ok l'
        × (append digest now payload l'
            ≡ err (permission_error "Experiment ledger has been finalized"))
  unfolding finalize open_ledger append
  finalize-open_ledger l l' m now payload h e =
      let (g, written, done) =
        >>=-eq-ok
          (write_seal digest (record { final_hash = l.last_hash; record_count = l.sequence })
            l.seal)
          _ (rw h.chained at e) in
      let final = write_seal-final _ l.seal g m written in
      rw (← ok_eq _ _ done) (rw (h.chained, ← h.last, ← h.next, final) refl, refl)
