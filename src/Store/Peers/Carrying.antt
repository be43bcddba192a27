-- ===== src/Store/Peers/Carrying.antt =====
-- Carrying mail to and from a peer keeps the counters right and the message ids unique.
use vvagent.Base.{
  ℕ, ◌≡◌, refl, ◌∙◌, inl, inr, Bool, true, false, not, ◌&&◌, List, Option, none, arith, Text, ltb,
  Bool-cases,
}
use vvagent.Bridge.Frame.{Deliver, validate_deliver}
use vvagent.Error.{ErrorCode, ok, err, ◌>>=◌, ◌>>◌}
use vvagent.Identity.Opaque
use vvagent.Identity.Opaque.{Opaque, opaque_eq, opaque_eq→≡}
use vvagent.Message.Ref.{Ref}
use vvagent.Message.State.{State}
use vvagent.Store.Tables.{Store, Message, Caller, load_message}
use vvagent.Store.Rows.{update, changed}
use vvagent.Store.Queries.{
  agent_identity, require_peer_authority, require_live_lease, recount, principal_key,
}
use vvagent.Store.Admission.{prior_send}
use vvagent.Store.Branches.{After, on_if, on_option, on_result}
use vvagent.Store.Counting.{recount-Counted}
use vvagent.Store.Settling.{update-Unique, update-CountedBut}
use vvagent.Store.Accounting.{send_as-Counted}
use vvagent.Store.Responding.{send_as-Unique, respond-Counted}
use vvagent.Store.Keeping.{respond-Unique}
use vvagent.Store.Lifecycle.{Sound, NoMail}
use vvagent.Store.Peers.Outbound.{
  settle_outbound, apply_settle, in_flight, settle, confirm_remote_cancel, apply_remote_cancel,
  stoppable, stop, is_cancelled,
}
use vvagent.Store.Peers.Inbound.{
  ingest, commit, answer, enqueue, is_response, peer_inbound_budget_left,
}
use vvagent.Store.Peers.Proxies.{ensure_proxy, proxy_caller}
use vvagent.Store.Peers.Kept.{ensure_proxy-Sound}

-- Changes of mail to one endpoint, which is then recounted.
recounted-Sound :
    (p : Message → Bool) (f : Message → Message) (s : Store) (id : Opaque)
    → ((m : Message) → p m ≡ true → m.to_endpoint ≡ id)
    → ((m : Message)
        → ((f m).message_id ≡ m.message_id)
          × ((f m).to_endpoint ≡ m.to_endpoint)
          × ((f m).bytes ≡ m.bytes))
    → Sound s
    → Sound (recount id (record s { messages = update p f s.messages }))
recounted-Sound p f s id to keeps (u, h) = (
  unfold recount in update-Unique p f s (λ m. (keeps m).0) u,
  recount-Counted id (record s { messages = update p f s.messages })
      (update-CountedBut p f s id (λ m i e. (to m e, (keeps m).1 ∙ to m e, (keeps m).2)) h),
)

apply_settle-After :
    (s : Store) (now : ℕ) (proxy owner id : Opaque) (failure : Option ErrorCode)
    → Sound s
    → After Sound (apply_settle s now proxy owner id failure)
unfolding apply_settle
apply_settle-After s now proxy owner id failure h =
    on_if (ltb 0 (changed (in_flight id proxy owner) s.messages))
      (λ q.
        on_result (load_message _ id) s err _ (λ e. h)
          (λ m k. record {
            holds =
                recounted-Sound (in_flight id proxy owner) (settle failure) s proxy
                  (λ n e. opaque_eq→≡ n.to_endpoint proxy (ground arith)) (λ n. (refl, refl, refl))
                  h;
          }))
      (λ q. record { holds = h })

settle-After :
    (s : Store) (checked now : ℕ) (c : Caller) (id : Opaque) (failure : Option ErrorCode)
    → Sound s
    → After Sound (settle_outbound s checked now c id failure)
unfolding settle_outbound
settle-After s checked now c id failure h =
    on_result (agent_identity c >>= λ who. require_peer_authority s checked c >> ok who) s err _
      (λ e. h) (λ who q. apply_settle-After s now who.0 who.1 id failure h)

pub settle_outbound-Sound :
    (s : Store) (checked now : ℕ) (c : Caller) (id : Opaque) (failure : Option ErrorCode)
    → Sound s
    → Sound (settle_outbound s checked now c id failure).1
settle_outbound-Sound s checked now c id failure h =
    (settle-After s checked now c id failure h).holds

apply_remote_cancel-Sound :
    (s : Store) (now : ℕ) (proxy id : Opaque) (state : State)
    → Sound s
    → Sound (apply_remote_cancel s now proxy id state)
unfolding apply_remote_cancel
apply_remote_cancel-Sound s now proxy id state h =
    elim (Bool-cases (is_cancelled state && ltb 0 (changed (stoppable id proxy) s.messages))) [
      | inl stops ↦ rw stops (
          recounted-Sound (stoppable id proxy) stop s proxy
            (λ n e. opaque_eq→≡ n.to_endpoint proxy (ground arith)) (λ n. (refl, refl, refl)) h)
      | inr waits ↦ rw waits h
    ]

remote_cancel-After :
    (s : Store) (checked now : ℕ) (c : Caller) (id : Opaque) (state : State)
    → Sound s
    → After Sound (confirm_remote_cancel s checked now c id state)
unfolding confirm_remote_cancel
remote_cancel-After s checked now c id state h =
    on_result (agent_identity c >>= λ who. require_peer_authority s checked c >> ok who) s err _
      (λ e. h)
      (λ who q.
        on_result (load_message (apply_remote_cancel s now who.0 id state) id) s err _ (λ e. h)
          (λ m k. record { holds = apply_remote_cancel-Sound s now who.0 id state h }))

pub confirm_remote_cancel-Sound :
    (s : Store) (checked now : ℕ) (c : Caller) (id : Opaque) (state : State)
    → Sound s
    → Sound (confirm_remote_cancel s checked now c id state).1
confirm_remote_cancel-Sound s checked now c id state h =
    (remote_cancel-After s checked now c id state h).holds

module _ (is_absolute : Text → Bool) (refs_json : List Ref → Option Text) (sha256 : List ℕ → List ℕ)
    (clock : ℕ → ℕ) (fresh_id fresh_conversation : Opaque) (peer_id : Opaque) (d : Deliver) where
  answer-After :
      (c : Caller) (s : Store)
      → Sound s
      → After Sound
          (answer is_absolute refs_json sha256 clock fresh_id fresh_conversation peer_id d c s)
  unfolding answer
  answer-After c s (u, h) =
      on_option d.reply_to_origin _ _ (λ k. record { holds = (u, h) })
        (λ asked k.
          on_option d.outcome _ _ (λ j. record { holds = (u, h) })
            (λ outcome j. record {
              holds = (
                (respond-Unique is_absolute refs_json sha256 s (clock 4) (clock 5) fresh_id
                    fresh_conversation c asked outcome d.text _ _ u).holds,
                respond-Counted is_absolute refs_json sha256 s (clock 4) (clock 5) fresh_id
                    fresh_conversation c asked outcome d.text _ _ u h,
              );
            }))

  enqueue-After :
      (first_time : Bool) (c : Caller) (s : Store)
      → Sound s
      → After Sound (
          enqueue is_absolute refs_json sha256 clock fresh_id fresh_conversation peer_id d
            first_time c s)
  unfolding enqueue
  enqueue-After first_time c s (u, h) =
      on_if (first_time && not (peer_inbound_budget_left s peer_id (clock 3)))
        (λ q. record { holds = (u, h) })
        (λ q. record {
          holds = (
            send_as-Unique is_absolute refs_json sha256 (clock 4) fresh_id fresh_conversation c _ _
                s u,
            send_as-Counted is_absolute refs_json sha256 (clock 4) fresh_id fresh_conversation c _ _
                s h,
          );
        })

  commit-After :
      (c : Caller) (s : Store)
      → Sound s
      → After Sound
          (commit is_absolute refs_json sha256 clock fresh_id fresh_conversation peer_id d c s)
  unfolding commit
  commit-After c s h =
      on_option (prior_send s (principal_key c.principal) (Opaque.as_str d.origin_message_id)) _ _
        (λ k. on_if (is_response d.kind) (λ q. answer-After c s h) (λ q. enqueue-After true c s h))
        (λ row k.
          on_if (is_response d.kind) (λ q. record { holds = h }) (λ q. enqueue-After false c s h))

  ingest-After :
      (owner fresh_proxy : Opaque) (s : Store)
      → NoMail fresh_proxy s
      → Sound s
      → After Sound (
          ingest is_absolute refs_json sha256 clock fresh_id fresh_conversation peer_id d owner
            fresh_proxy s)
  unfolding ingest
  ingest-After owner fresh_proxy s n h =
      let placed = ensure_proxy s (clock 1) peer_id d.origin_endpoint_id none fresh_proxy in
      let kept = ensure_proxy-Sound s (clock 1) peer_id d.origin_endpoint_id none fresh_proxy n h in
      on_result (validate_deliver is_absolute d >> require_live_lease s (clock 0) peer_id owner) s
        err _ (λ e. h)
        (λ u q.
          on_result placed.0 placed.1 err _ (λ e. kept)
            (λ id q'.
              on_result (proxy_caller placed.1 (clock 2) id owner) placed.1 err _ (λ e. kept)
                (λ c q''. commit-After c placed.1 kept)))

  pub ingest-Sound :
      (owner fresh_proxy : Opaque) (s : Store)
      → NoMail fresh_proxy s
      → Sound s
      → Sound
          (ingest is_absolute refs_json sha256 clock fresh_id fresh_conversation peer_id d owner
            fresh_proxy s).1
  ingest-Sound owner fresh_proxy s n h = (ingest-After owner fresh_proxy s n h).holds
