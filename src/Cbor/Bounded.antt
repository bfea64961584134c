-- ===== src/Cbor/Bounded.antt =====
-- `UnmarshalCBOR` of SectorInfo on any stream: how long the slices that it reads can be.
use text.Mathlib.Text.{◌==◌}
use storage_fsm.Base.{
  ℕ, zero, suc, ◌≤◌, ◌≡◌, refl, ap, subst, length, List, Bytes, String, ok, arith,
}
use storage_fsm.Sector.{SectorInfo}
use storage_fsm.Cbor.Gives.{
  Holds, Gives, give-Gives, refuse-Gives, choose-Gives, if-Gives, then-Gives, any-Gives, Gives-map,
  read_full-Gives,
}
use storage_fsm.Cbor.Stream.{Reader, give, read_then}
use storage_fsm.Cbor.Services.{Cbg, Major, byte_string, array}
use storage_fsm.Cbor.Values.{
  read_struct, read_fields, read_each, slice_after, read_slice, bytes_after, read_bytes,
}
use storage_fsm.Cbor.SectorRead.{
  origin_field, seal_field, chain_field, outcome_field, unmarshal_sector,
}

module _ {Cid World : Type 0} (c : Cbg Cid World) where
  bytes_after-Gives :
      (too_large : String) (head : Major × ℕ)
      → Gives (λ bs. length bs ≤ c.byte_array_max_len) (bytes_after c too_large head)
  bytes_after-Gives too_large (byte_string, extra) =
      choose-Gives _ (refuse-Gives _)
        λ small. Gives-map (λ bs h. ground (arith, h, small)) (read_full-Gives extra)
  bytes_after-Gives too_large (_, extra) = choose-Gives _ (refuse-Gives _) λ small. refuse-Gives _

  read_bytes-Gives :
      (too_large : String) → Gives (λ bs. length bs ≤ c.byte_array_max_len) (read_bytes c too_large)
  unfolding read_bytes
  read_bytes-Gives too_large = then-Gives (any-Gives _) λ head u. bytes_after-Gives too_large head

  module _ {A : Type 0} (item : Reader A) where
    read_each-Gives : (n : ℕ) → Gives (λ xs. length xs ≡ n) (read_each c item n)
    unfolding read_each
    read_each-Gives zero = give-Gives _ refl
    read_each-Gives (suc n) =
        then-Gives (any-Gives item)
          λ v u. then-Gives (read_each-Gives n) λ vs h. give-Gives _ (ap suc h)

    slice_after-Gives :
        (too_large : String) (old : List A) (head : Major × ℕ)
        → length old ≤ c.max_length
        → Gives (λ xs. length xs ≤ c.max_length) (slice_after c too_large old item head)
    slice_after-Gives too_large old (array, zero) fits =
        choose-Gives _ (refuse-Gives _) λ small. give-Gives _ fits
    slice_after-Gives too_large old (array, suc n) fits =
        choose-Gives _ (refuse-Gives _)
          λ small. Gives-map (λ xs h. ground (arith, h, small)) (read_each-Gives (suc n))
    slice_after-Gives too_large old (_, extra) fits =
        choose-Gives _ (refuse-Gives _) λ small. refuse-Gives _

    read_slice-Gives :
        (too_large : String) (old : List A)
        → length old ≤ c.max_length
        → Gives (λ xs. length xs ≤ c.max_length) (read_slice c too_large old item)
    unfolding read_slice
    read_slice-Gives too_large old fits =
        then-Gives (any-Gives _) λ head u. slice_after-Gives too_large old head fits

  -- The slices and byte strings of the record are no longer than the limits of cbor-gen.
  abbrev pub IsBounded : SectorInfo Cid → Type 0
  IsBounded s =
      (length s.pieces ≤ c.max_length)
      × (length s.log ≤ c.max_length)
      × (length s.ticket_value ≤ c.byte_array_max_len)
      × (length s.pre_commit1_out ≤ c.byte_array_max_len)
      × (length s.proof ≤ c.byte_array_max_len)
      × (length s.pre_commit_tip_set ≤ c.byte_array_max_len)
      × (length s.seed_value ≤ c.byte_array_max_len)

  -- A field that is no slice.
  other_field :
      {B : Type 0} (r : Reader B) (f : B → SectorInfo Cid)
      → ((b : B) → IsBounded (f b))
      → Gives IsBounded (read_then r (λ v. give (f v)))
  other_field r f q = then-Gives (any-Gives r) λ v u. give-Gives _ (q v)

  outcome_field-Gives :
      (name : String) (t : SectorInfo Cid) → IsBounded t → Gives IsBounded (outcome_field c name t)
  unfolding outcome_field
  outcome_field-Gives name t q = if-Gives (name == "CommitMessage") (other_field _ _ λ v. q) (
      if-Gives (name == "InvalidProofs") (other_field _ _ λ v. q) (
        if-Gives (name == "FaultReportMsg") (other_field _ _ λ v. q) (
          if-Gives (name == "LastErr") (other_field _ _ λ v. q) (
            if-Gives (name == "Log")
              (then-Gives (read_slice-Gives _ _ t.log q.1)
                λ v h. give-Gives _ (q.0, h, q.2, q.3, q.4, q.5, q.6))
              (refuse-Gives _)))))

  chain_field-Gives :
      (name : String) (t : SectorInfo Cid) → IsBounded t → Gives IsBounded (chain_field c name t)
  unfolding chain_field
  chain_field-Gives name t q = if-Gives (name == "PreCommitMessage") (other_field _ _ λ v. q) (
      if-Gives (name == "PreCommitTipSet")
        (then-Gives (read_bytes-Gives _) λ v h. give-Gives _ (q.0, q.1, q.2, q.3, q.4, h, q.6))
        (if-Gives (name == "PreCommit2Fails") (other_field _ _ λ v. q) (
          if-Gives (name == "SeedValue")
            (then-Gives (read_bytes-Gives _) λ v h. give-Gives _ (q.0, q.1, q.2, q.3, q.4, q.5, h))
            (if-Gives (name == "SeedEpoch") (other_field _ _ λ v. q)
              (outcome_field-Gives name t q)))))

  seal_field-Gives :
      (name : String) (t : SectorInfo Cid) → IsBounded t → Gives IsBounded (seal_field c name t)
  unfolding seal_field
  seal_field-Gives name t q =
      if-Gives (name == "TicketValue")
        (then-Gives (read_bytes-Gives _) λ v h. give-Gives _ (q.0, q.1, h, q.3, q.4, q.5, q.6))
        (if-Gives (name == "TicketEpoch") (other_field _ _ λ v. q) (
          if-Gives (name == "PreCommit1Out")
            (then-Gives (read_bytes-Gives _) λ v h. give-Gives _ (q.0, q.1, q.2, h, q.4, q.5, q.6))
            (if-Gives (name == "CommD") (other_field _ _ λ v. q) (
              if-Gives (name == "CommR") (other_field _ _ λ v. q) (
                if-Gives (name == "Proof")
                  (then-Gives (read_bytes-Gives _)
                    λ v h. give-Gives _ (q.0, q.1, q.2, q.3, h, q.5, q.6))
                  (chain_field-Gives name t q))))))

  origin_field-Gives :
      (name : String) (t : SectorInfo Cid) → IsBounded t → Gives IsBounded (origin_field c name t)
  unfolding origin_field
  origin_field-Gives name t q = if-Gives (name == "State") (other_field _ _ λ v. q) (
      if-Gives (name == "SectorNumber") (other_field _ _ λ v. q) (
        if-Gives (name == "SectorType") (other_field _ _ λ v. q) (
          if-Gives (name == "Pieces")
            (then-Gives (read_slice-Gives _ _ t.pieces q.0)
              λ v h. give-Gives _ (h, q.1, q.2, q.3, q.4, q.5, q.6))
            (seal_field-Gives name t q))))

  fields-Gives :
      (n : ℕ) (t : SectorInfo Cid)
      → IsBounded t
      → Gives IsBounded (read_fields c (origin_field c) t n)
  unfolding read_fields
  fields-Gives zero t q = give-Gives t q
  fields-Gives (suc n) t q =
      then-Gives (any-Gives _)
        λ name u. then-Gives (origin_field-Gives name t q) λ t' h. fields-Gives n t' h

  -- Whatever the stream, a record that `UnmarshalCBOR` reads into a bounded one, as the zero value
  -- is, is bounded: its lists have at most `MaxLength` entries and its byte strings at most
  -- `ByteArrayMaxLen` bytes.
  pub unmarshal_sector-IsBounded :
      (t : SectorInfo Cid)
      → IsBounded t
      → (bs : Bytes) (s : SectorInfo Cid) (rest : Bytes) → unmarshal_sector c t bs ≡ ok (s, rest)
      → IsBounded s
  unfolding unmarshal_sector read_struct
  unmarshal_sector-IsBounded t q bs s rest e = subst (Holds IsBounded) e (
      (then-Gives {k = read_fields c (origin_field c) t} (any-Gives _) λ n u. fields-Gives n t q).at
        bs)
