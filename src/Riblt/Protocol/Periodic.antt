-- ===== src/Riblt/Protocol/Periodic.antt =====
-- riblt/mod.rs, the periodic task: the sessions that it starts.
use leopard.Prelude.{
  ◌≡◌, refl, sym, ◌∙◌, ap, Bool, true, false, Option, none, some, List, [], ◌∷◌, Text, text_eq,
  text_eq_iff, if◌then◌else◌, Bool-cases, inl, inr,
}
use leopard.State.Dash.{DashMap}
use leopard.State.Storage.{KeyValueDataStateStorage}
use leopard.Riblt.Decoder.{RatelessIblt}
use leopard.Riblt.Session.{load_iblt_symbols}
use leopard.Riblt.Sender.{put, RibltStreamEngine, SendingState, already_sending, start_send}
use leopard.Riblt.Protocol.{reconciliation_mechanism}

abbrev is_some {ℓ} : {A : Type ℓ} → Option A → Bool
is_some none = false
is_some (some a) = true

some_not_none {ℓ} : {A : Type ℓ} (a : A) → some a ≡ none → ⊥
some_not_none a h = cc

module _ (E : RatelessIblt) where
  module _ (D : DashMap) (L : Type 0) (storage : KeyValueDataStateStorage D L) where
    abbrev pub new_session : Text → SendingState E
    new_session session_id = record {
      local_iblt = E.new (load_iblt_symbols D L storage);
      session_id = session_id;
      notified = false;
      acked = 0;
    }

    -- The session that the neighbour has, or else a new one with the whole storage for the first of its
    -- places among the targets.
    abbrev pub session_after :
        List (Text × Text) → Text → Option (SendingState E) → Option (SendingState E)
    session_after targets neighbor (some s) = some s
    session_after [] neighbor none = none
    session_after ((info, session_id) ∷ targets) neighbor none =
        if text_eq info neighbor
        then some (new_session session_id)
        else session_after targets neighbor none

    session_after-none :
        (neighbor : Text) (o : Option (SendingState E)) → o ≡ session_after [] neighbor o
    session_after-none neighbor none = refl
    session_after-none neighbor (some s) = refl

    after_one : Text → Text → RibltStreamEngine E → RibltStreamEngine E
    after_one info session_id e =
        if already_sending E info e
        then e
        else start_send E info (load_iblt_symbols D L storage) session_id e

    session_after-cons :
        (info session_id neighbor : Text) (targets : List (Text × Text))
        (o : Option (SendingState E))
        → session_after ((info, session_id) ∷ targets) neighbor o
          ≡ session_after targets neighbor (session_after ((info, session_id) ∷ []) neighbor o)
    session_after-cons info session_id neighbor targets (some s) = refl
    session_after-cons info session_id neighbor targets none =
        elim (Bool-cases (text_eq info neighbor)) [ inl e ↦ rw e refl | inr e ↦ rw e refl ]

    -- The entry of a neighbour, from it and that of the target.
    session_after-one :
        (info session_id neighbor : Text) (target entry : Option (SendingState E))
        → (text_eq info neighbor ≡ true → target ≡ entry)
        → (if is_some target
            then entry
            else if text_eq info neighbor
            then some (new_session session_id)
            else entry)
          ≡ session_after ((info, session_id) ∷ []) neighbor entry
    session_after-one info session_id neighbor none none same = refl
    session_after-one info session_id neighbor (some t) (some s) same = refl
    session_after-one info session_id neighbor (some t) none same =
        elim (Bool-cases (text_eq info neighbor)) [
          | inl e ↦ absurd (some_not_none t (same e))
          | inr e ↦ rw e refl
        ]
    session_after-one info session_id neighbor none (some s) same =
        elim (Bool-cases (text_eq info neighbor)) [
          | inl e ↦ absurd (some_not_none s (sym (same e)))
          | inr e ↦ rw e refl
        ]

    if_entry :
        (b : Bool) (e f : RibltStreamEngine E) (neighbor : Text)
        → (if b then e else f).sending_states neighbor
          ≡ (if b then e.sending_states neighbor else f.sending_states neighbor)
    if_entry true e f neighbor = refl
    if_entry false e f neighbor = refl

    sending_states-after_one :
        (info session_id neighbor : Text) (e : RibltStreamEngine E)
        → (after_one info session_id e).sending_states neighbor
          ≡ session_after ((info, session_id) ∷ []) neighbor (e.sending_states neighbor)
    unfolding after_one already_sending start_send put
    sending_states-after_one info session_id neighbor e =
        if_entry (already_sending E info e) e
          (start_send E info (load_iblt_symbols D L storage) session_id e) neighbor
        ∙ session_after-one info session_id neighbor (e.sending_states info)
            (e.sending_states neighbor) (λ h. ap e.sending_states ((text_eq_iff info neighbor).0 h))

    receiving_states-after_one :
        (info session_id : Text) (e : RibltStreamEngine E)
        → (after_one info session_id e).receiving_states ≡ e.receiving_states
    unfolding after_one start_send
    receiving_states-after_one info session_id e = elim (Bool-cases (already_sending E info e)) [
      | inl h ↦ rw h refl
      | inr h ↦ rw h refl
    ]

    -- The periodic task leaves the sessions that are there and the receivers as they are, and starts one
    -- session, with the whole storage, for each target that has none, however often it is listed.
    pub reconciliation_mechanism_lem :
        (targets : List (Text × Text)) (e : RibltStreamEngine E) (neighbor : Text)
        → ((reconciliation_mechanism E D L storage targets e).sending_states neighbor
            ≡ session_after targets neighbor (e.sending_states neighbor))
          × ((reconciliation_mechanism E D L storage targets e).receiving_states
              ≡ e.receiving_states)
    unfolding reconciliation_mechanism after_one
    reconciliation_mechanism_lem [] e neighbor =
        (session_after-none neighbor (e.sending_states neighbor), refl)
    reconciliation_mechanism_lem ((info, session_id) ∷ targets) e neighbor =
        let rest = reconciliation_mechanism_lem targets (after_one info session_id e) neighbor in
        (
          rest.0
              ∙ ap (session_after targets neighbor)
                  (sending_states-after_one info session_id neighbor e)
              ∙ sym
                  (session_after-cons info session_id neighbor targets (e.sending_states neighbor)),
          rest.1 ∙ receiving_states-after_one info session_id e,
        )
