-- ===== src/Social/Pair/Answers.antt =====
-- The moves on the open request of a pair: accept, reject, cancel and part.
use biexce_social_network.Prelude.{
  true, none, some, Result, ok, err, Error, ◌==◌, ◌||◌, ◌≡◌, refl, inl, inr, Bool-cases, ◌∙◌,
  not_recipient, not_pending, not_sender, blocked,
}
use biexce_social_network.Models.{Db, User, FriendRequest, accepted}
use biexce_social_network.Social.Queries.{is_blocked, is_pending_request}
use biexce_social_network.Social.Requests.{
  find_open, accept_friend_request, reject_friend_request, cancel_sent_request, set_state,
}
use biexce_social_network.Social.Pair.{
  outcome_of, apart, friends, Pair, accept, reject, cancel, allowed, perform, pair_of, IsSound,
  Agrees,
}
use biexce_social_network.Social.Pair.Moves.{
  Agrees-refused, Agrees-made, blocked_of, link_known, find_open-cases,
}
use biexce_social_network.Social.Pair.Standing.{
  theirs, mine, both, found-Stands, blocked_of_ends, accepted-pair, rejected-pair, deleted-pair,
}

absent-refused :
    (me other : User) (db : Db)
    → find_open me.id other.id db ≡ ok none
    → (perform accept me other db ≡ (err not_pending, db))
      × (perform reject me other db ≡ (err not_pending, db))
      × (perform cancel me other db ≡ (err not_pending, db))
unfolding perform
absent-refused me other db h = (rw h refl, rw h refl, rw h refl)

pub reject-Agrees :
    (me other : User) (db : Db)
    → IsSound me other db
    → Agrees me other db (allowed reject (pair_of me other db)) (perform reject me other db)
unfolding allowed perform reject_friend_request
reject-Agrees me other db s = elim (find_open-cases me other db s) [
  | inl (h, fresh) ↦
      Agrees-refused me other db _ _ not_pending (rw (link_known me other db (ok none) h) refl)
        (absent-refused me other db h).1
  | inr (q, h, f) ↦ elim (found-Stands me other q db f s.distinct) [
    | theirs w r t l ↦
        Agrees-made me other db _ _ (record (pair_of me other db) { link = apart }) _
          (rw (link_known me other db (ok (some q)) h ∙ l) refl) (rw (h, r, w) refl)
          (rejected-pair me other q (q.canonical_left, q.canonical_right) db s f)
    | mine w r t l ↦
        Agrees-refused me other db _ _ not_recipient
          (rw (link_known me other db (ok (some q)) h ∙ l) refl) (rw (h, r) refl)
    | both w a l ↦ elim (Bool-cases (q.recipient_id == me.id)) [
      | inl r ↦
          Agrees-refused me other db _ _ not_pending
            (rw (link_known me other db (ok (some q)) h ∙ l) refl) (rw (h, r, w) refl)
      | inr r ↦
          Agrees-refused me other db _ _ not_recipient
            (rw (link_known me other db (ok (some q)) h ∙ l) refl) (rw (h, r) refl)
    ]
  ]
]

pub cancel-Agrees :
    (me other : User) (db : Db)
    → IsSound me other db
    → Agrees me other db (allowed cancel (pair_of me other db)) (perform cancel me other db)
unfolding allowed perform cancel_sent_request
cancel-Agrees me other db s = elim (find_open-cases me other db s) [
  | inl (h, fresh) ↦
      Agrees-refused me other db _ _ not_pending (rw (link_known me other db (ok none) h) refl)
        (absent-refused me other db h).2
  | inr (q, h, f) ↦ elim (found-Stands me other q db f s.distinct) [
    | mine w r t l ↦
        Agrees-made me other db _ _ (record (pair_of me other db) { link = apart }) _
          (rw (link_known me other db (ok (some q)) h ∙ l) refl) (rw (h, t, w) refl)
          (deleted-pair me other q db s f)
    | theirs w r t l ↦
        Agrees-refused me other db _ _ not_sender
          (rw (link_known me other db (ok (some q)) h ∙ l) refl) (rw (h, t) refl)
    | both w a l ↦ elim (Bool-cases (q.sender_id == me.id)) [
      | inl t ↦
          Agrees-refused me other db _ _ not_pending
            (rw (link_known me other db (ok (some q)) h ∙ l) refl) (rw (h, t, w) refl)
      | inr t ↦
          Agrees-refused me other db _ _ not_sender
            (rw (link_known me other db (ok (some q)) h ∙ l) refl) (rw (h, t) refl)
    ]
  ]
]

-- An accept that a block prevents raises, and changes nothing.
accept-blocked :
    (q : FriendRequest) (me : User) (db : Db)
    → is_blocked db q.sender_id q.recipient_id ≡ true
    → (e : Error) × (accept_friend_request q me db ≡ (err e, db))
unfolding accept_friend_request
accept-blocked q me db b = elim (Bool-cases (q.recipient_id == me.id)) [
  | inr r ↦ (not_recipient, rw r refl)
  | inl r ↦ elim (Bool-cases (is_pending_request q.state)) [
    | inr w ↦ (not_pending, rw (r, w) refl)
    | inl w ↦ (blocked, rw (r, w, b) refl)
  ]
]

on_found-some :
    (me other : User) (q : FriendRequest) (db : Db) (r : Result FriendRequest × Db)
    → find_open me.id other.id db ≡ ok (some q)
    → accept_friend_request q me db ≡ r
    → perform accept me other db ≡ outcome_of r
unfolding perform
on_found-some me other q db r h e = rw (h, e) refl

accept-apart : (p : Pair) → p.link ≡ apart → allowed accept p ≡ none
unfolding allowed
accept-apart p h = elim (Bool-cases (p.i_block || p.they_block)) [
  | inl b ↦ rw b refl
  | inr b ↦ rw (b, h) refl
]

pub accept-Agrees :
    (me other : User) (db : Db)
    → IsSound me other db
    → Agrees me other db (allowed accept (pair_of me other db)) (perform accept me other db)
unfolding allowed accept_friend_request
accept-Agrees me other db s = elim (find_open-cases me other db s) [
  | inl (h, fresh) ↦
      Agrees-refused me other db _ _ not_pending
        (accept-apart (pair_of me other db) (link_known me other db (ok none) h))
        (absent-refused me other db h).0
  | inr (q, h, f) ↦ elim (Bool-cases (is_blocked db me.id other.id)) [
    | inl b ↦
        let r = accept-blocked q me db (blocked_of_ends me other q db f s.distinct ∙ b) in
        Agrees-refused me other db _ _ r.0 (rw (blocked_of me other db ∙ b) refl)
          (on_found-some me other q db (err r.0, db) h r.1)
    | inr b ↦ elim (found-Stands me other q db f s.distinct) [
      | theirs w r t l ↦
          Agrees-made me other db _ _ (record (pair_of me other db) { link = friends }) _
            (rw (blocked_of me other db ∙ b, link_known me other db (ok (some q)) h ∙ l) refl)
            (on_found-some me other q db
              (ok (record q { state = accepted }), set_state q.id accepted db) h
              (rw (r, w, blocked_of_ends me other q db f s.distinct ∙ b) refl))
            (accepted-pair me other q db s f w)
      | mine w r t l ↦
          Agrees-refused me other db _ _ not_recipient
            (rw (blocked_of me other db ∙ b, link_known me other db (ok (some q)) h ∙ l) refl)
            (on_found-some me other q db (err not_recipient, db) h (rw r refl))
      | both w a l ↦ elim (Bool-cases (q.recipient_id == me.id)) [
        | inl r ↦
            Agrees-refused me other db _ _ not_pending
              (rw (blocked_of me other db ∙ b, link_known me other db (ok (some q)) h ∙ l) refl)
              (on_found-some me other q db (err not_pending, db) h (rw (r, w) refl))
        | inr r ↦
            Agrees-refused me other db _ _ not_recipient
              (rw (blocked_of me other db ∙ b, link_known me other db (ok (some q)) h ∙ l) refl)
              (on_found-some me other q db (err not_recipient, db) h (rw r refl))
      ]
    ]
  ]
]
