-- ===== src/Session/Writing.antt =====
-- The buffered writer loses no bytes, and a session's append adds one record.
use xrunner.Base.{
  Bool, Bool-cases, List, Option, [], ap, append-nil, append_assoc, arith, drop, false, inl, inr,
  length, length-append, ltb, refl, sym, take, take-append-drop, true, ℕ, ◌*◌, ◌++◌, ◌+◌, ◌-◌, ◌||◌,
  ◌∙◌, ◌∷◌, ◌≡◌, ◌≤◌,
}
use xrunner.Session.Defs.{
  AgentEvent, Session, append, buffer_size, write, write_empty, write_record,
}
use xrunner.Session.Delimited.{put_uvarint, write_delimited}

write_empty-append :
    (file p : List ℕ) → (write_empty file p).0 ++ (write_empty file p).1 ≡ file ++ p
write_empty-append file p = elim (Bool-cases (ltb buffer_size (length p))) [
  | inl q ↦ rw q (append-nil (file ++ p))
  | inr q ↦ rw q
]

write-append :
    (file buffered p : List ℕ)
    → (write file buffered p).0 ++ (write file buffered p).1 ≡ (file ++ buffered) ++ p
unfolding write
write-append file [] p = write_empty-append file p ∙ ap (λ f. f ++ p) (sym (append-nil file))
write-append file (b ∷ buffered) p =
    let full = b ∷ buffered in
    let available = buffer_size - length full in
    elim (Bool-cases (ltb available (length p))) [
      | inr q ↦ rw q (sym (append_assoc file full p))
      | inl q ↦ rw q (
          write_empty-append (file ++ full ++ take available p) (drop available p)
          ∙ append_assoc (file ++ full) (take available p) (drop available p)
          ∙ ap (λ r. (file ++ full) ++ r) (take-append-drop available p))
    ]

-- What a record adds is its length and its message.
write_record-append :
    (file buffered msg : List ℕ)
    → (write_record file buffered msg).0 ++ (write_record file buffered msg).1
      ≡ (file ++ buffered) ++ write_delimited msg
unfolding write_record write_delimited
write_record-append file buffered msg =
    let header = put_uvarint (length msg) in
    let (file', left) = write file buffered header in
    write-append file' left msg
    ∙ ap (λ l. l ++ msg) (write-append file buffered header)
    ∙ append_assoc (file ++ buffered) header msg

write_fits :
    (file buffered p : List ℕ)
    → length buffered + length p ≤ buffer_size
    → write file buffered p ≡ (file, buffered ++ p)
unfolding write
write_fits file [] p fits =
    let small : ltb buffer_size (length p) ≡ false = ground arith in rw small refl
write_fits file (b ∷ buffered) p fits =
    let small : ltb (buffer_size - length (b ∷ buffered)) (length p) ≡ false = ground arith in
    rw small refl

write_record_fits :
    (file msg : List ℕ)
    → length (write_delimited msg) ≤ buffer_size
    → write_record file [] msg ≡ (file, write_delimited msg)
unfolding write_record write_delimited
write_record_fits file msg fits =
    let header = put_uvarint (length msg) in
    let size = length-append header msg in
    rw (write_fits file [] header (omega (arith, fits, size)))
      (write_fits file header msg (omega (arith, fits, size)))

module _ (marshal : AgentEvent → List ℕ) (unmarshal : List ℕ → Option AgentEvent) where
  -- The file and the buffer together grow by the event's record, whichever way it is flushed.
  pub append-grows :
      (evt : AgentEvent) (sync_now : Bool) (now : ℕ) (file : List ℕ) (sess : Session)
      → let r = append marshal unmarshal evt sync_now now file sess in
        (r.0 ++ r.1.buffered ≡ (file ++ sess.buffered) ++ write_delimited (marshal evt))
        × (r.1.next_id ≡ sess.next_id)
  unfolding append
  append-grows evt sync_now now file sess =
      let w = write_record file sess.buffered (marshal evt) in
      let e = write_record-append file sess.buffered (marshal evt) in
      elim (Bool-cases (sync_now || ltb (200 * 1000 * 1000) (now - sess.last_sync))) [
        | inl q ↦ rw q (append-nil (w.0 ++ w.1) ∙ e, refl)
        | inr q ↦ elim (Bool-cases (ltb buffer_size (length w.1))) [
          | inl r ↦ rw (q, r) (append-nil (w.0 ++ w.1) ∙ e, refl)
          | inr r ↦ rw (q, r) (e, refl)
        ]
      ]

  pub append-synced :
      (evt : AgentEvent) (now : ℕ) (file : List ℕ) (sess : Session)
      → (append marshal unmarshal evt true now file sess).1.buffered ≡ []
  unfolding append
  append-synced evt now file sess = refl

  -- A record that fits into the empty buffer of a session that is not due for a sync stays there.
  pub append-kept :
      (evt : AgentEvent) (now : ℕ) (file : List ℕ) (sess : Session)
      → sess.buffered ≡ []
      → now ≤ sess.last_sync + 200 * 1000 * 1000
      → length (write_delimited (marshal evt)) ≤ buffer_size
      → append marshal unmarshal evt false now file sess
        ≡ (file, record sess { buffered = write_delimited (marshal evt) })
  unfolding append
  append-kept evt now file sess e soon fits =
      let record_size = length (write_delimited (marshal evt)) in
      let not_due : ltb (200 * 1000 * 1000) (now - sess.last_sync) ≡ false = ground arith in
      let small : ltb buffer_size record_size ≡ false = ground arith in
      rw (e, write_record_fits file (marshal evt) fits, not_due, small) refl
