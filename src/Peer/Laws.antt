-- ===== src/Peer/Laws.antt =====
-- What the registry keeps to: an address keeps its identity, and what pruning removes.
use ztgotroller.Base.{
  sym, ◌∙◌, ◌==◌, Bool, ◌+◌, ◌≤◌, ◌≡◌, ◌⊎◌, refl, arith, false, bytes_eq_iff, bytes_keys, none,
  some, find, put, find-put, find-put_self, find-keep, IsDistinct, IsDistinct-put, IsDistinct-keep,
  ok, err, inl, inr, Bool-cases, Result-cases,
}
use ztgotroller.Domain.Ids.{NodeId, parse_node_id}
use ztgotroller.Netip.{AddrPort, Time, is_valid}
use ztgotroller.Identity.{identity_string}
use ztgotroller.Peer.{
  Error, invalid_endpoint, missing_time, invalid_identity, Hello, Session, Registry, collides,
  is_kept, prune_locked, prune, hello_session, is_full_for, store_session, learn_validated_hello,
  session_idle_ttl,
}

module _ {K : Type 0} where
  pub prune-IsDistinct :
      (now : Time) (force : Bool) (r : Registry K)
      → IsDistinct r.sessions
      → IsDistinct (prune_locked now force r).1.sessions
  unfolding prune_locked
  prune-IsDistinct now force r h =
      ground (arith, IsDistinct-keep (λ id session. is_kept now session) r.sessions)

  kept-prune_locked :
      (now : Time) (force : Bool) (r : Registry K) (id : NodeId) {s : Session K}
      → IsDistinct r.sessions
      → find id r.sessions ≡ some s
      → (find id (prune_locked now force r).1.sessions ≡ some s) ⊎ (is_kept now s ≡ false)
  unfolding prune_locked
  kept-prune_locked now force r id {s} h e = elim (Bool-cases (is_kept now s)) [
    | inr gone ↦ inr gone
    | inl kept ↦ inl (ground (arith, find-keep (λ id session. is_kept now session) id r.sessions h))
  ]

  store_session-same_identity :
      (nid id : NodeId) (session : Session K) (r : Registry K) {old new : Session K}
      → find id r.sessions ≡ some old
      → find id (store_session nid session r).0.sessions ≡ some new
      → identity_string new.identity ≡ identity_string old.identity
  unfolding store_session collides
  store_session-same_identity nid id session r {old} {new} e k = ground (
    arith,
    find-put nid id session r.sessions,
    bytes_eq_iff nid id,
    bytes_eq_iff (identity_string old.identity) (identity_string session.identity),
  )

  learned :
      (hello : Hello) (key : K) (endpoint : AddrPort) (now : Time) (r : Registry K)
      → ((error : Error) × (learn_validated_hello hello key endpoint now r ≡ (r, err error)))
        ⊎ (learn_validated_hello hello key endpoint now r
            ≡ store_session hello.identity.address
                (hello_session hello key endpoint now)
                (prune_locked now false r).1)
  unfolding learn_validated_hello
  learned hello key endpoint now r = elim (Bool-cases (is_valid endpoint.address)) [
    | inr bad ↦ inl (invalid_endpoint, ground arith)
    | inl good ↦ elim (Bool-cases (now == 0)) [
      | inl zero_time ↦ inl (missing_time, ground arith)
      | inr some_time ↦ elim (Result-cases (parse_node_id hello.identity.address)) [
        | inr (e, bad) ↦ inl (invalid_identity, ground arith)
        | inl (nid, valid) ↦ inr (ground arith)
      ]
    ]
  ]

  -- Whatever HELLO `LearnValidatedHello` gets for a registry without double entries, an address
  -- that had a session before and has one after it keeps its public identity, unless the old
  -- session was not configured and had been idle for ten minutes.
  pub learn_validated_hello-same_identity :
      (hello : Hello) (key : K) (endpoint : AddrPort) (now : Time) (r : Registry K) (id : NodeId)
      {old new : Session K}
      → IsDistinct r.sessions
      → find id r.sessions ≡ some old
      → find id (learn_validated_hello hello key endpoint now r).0.sessions ≡ some new
      → (identity_string new.identity ≡ identity_string old.identity) ⊎ (is_kept now old ≡ false)
  learn_validated_hello-same_identity hello key endpoint now r id {old} {new} h e k =
      elim (learned hello key endpoint now r) [
        | inl (error, is) ↦
            let same : find id r.sessions ≡ some new = rw is at k in inl (ground (arith, e, same))
        | inr is ↦ elim (kept-prune_locked now false r id h e) [
          | inr gone ↦ inr gone
          | inl kept ↦ inl (
              store_session-same_identity hello.identity.address id
                (hello_session hello key endpoint now) (prune_locked now false r).1 kept
                (rw is at k))
        ]
      ]

  put_pruned :
      (id : NodeId) (session : Session K) (r : Registry K) (later : Time)
      → IsDistinct r.sessions
      → session.configured ≡ false
      → session.last_seen + session_idle_ttl ≤ later
      → find id (prune later (record r { sessions = put id session r.sessions })).1.sessions ≡ none
  unfolding prune prune_locked is_kept
  put_pruned id session r later h learnt idle =
      let distinct = IsDistinct-put id session r.sessions h in
      let dropped =
        find-keep (λ id session. is_kept later session) id (put id session r.sessions) distinct in
      ground (arith, dropped, find-put_self id session r.sessions)

  stored_pruned :
      (id : NodeId) (session : Session K) (r : Registry K) (later : Time) {r' : Registry K}
      {s : Session K}
      → IsDistinct r.sessions
      → session.configured ≡ false
      → store_session id session r ≡ (r', ok s)
      → session.last_seen + session_idle_ttl ≤ later
      → find id (prune later r').1.sessions ≡ none
  unfolding store_session
  stored_pruned id session r later {r'} {s} h learnt e idle =
      elim (Bool-cases (collides id session.identity r)) [
        | inl bad ↦ absurd (ground arith)
        | inr fine ↦ elim (Bool-cases (is_full_for id r)) [
          | inl full ↦ absurd (ground arith)
          | inr room ↦
              let stored : record r { sessions = put id session r.sessions } ≡ r' = ground arith in
              rw (← stored) (put_pruned id session r later h learnt idle)
        ]
      ]

  -- After `LearnValidatedHello` has stored a session, whatever the registry held for the address
  -- before, a configured session too, `Prune` removes it from ten minutes after the HELLO on.
  pub prune-learn_validated_hello :
      (hello : Hello) (key : K) (endpoint : AddrPort) (now later : Time) (r : Registry K)
      {r' : Registry K} {s : Session K}
      → IsDistinct r.sessions
      → learn_validated_hello hello key endpoint now r ≡ (r', ok s)
      → now + session_idle_ttl ≤ later
      → find hello.identity.address (prune later r').1.sessions ≡ none
  prune-learn_validated_hello hello key endpoint now later r {r'} {s} h e idle =
      elim (learned hello key endpoint now r) [
        | inl (error, is) ↦ absurd (cc (e, is))
        | inr is ↦
            let same : store_session hello.identity.address (hello_session hello key endpoint now)
                  (prune_locked now false r).1
                ≡ (r', ok s) =
              sym is ∙ e in
            stored_pruned hello.identity.address (hello_session hello key endpoint now)
              (prune_locked now false r).1 later (prune-IsDistinct now false r h) refl same idle
      ]
