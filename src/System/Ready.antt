-- ===== src/System/Ready.antt =====
-- What happens before the F1AP server is started.
use central_unit.Base.{
  ℕ, ◌≡◌, ◌≢◌, ◌∙◌, ap, refl, ◌⊎◌, inl, inr, Option-cases, List, [], ◌∷◌, ◌++◌, none, some, done,
  arith,
}
use central_unit.Base.Int.{ℤ}
use central_unit.Bytes.{Bytes}
use central_unit.Amf.{NgSetupResponse}
use central_unit.Wire.{Env, NgPdu, NgMessage, ng_setup_response}
use central_unit.Config.{Config}
use central_unit.Transport.{Network, SctpConn}
use central_unit.Transport.ReadLoop.{Client}
use central_unit.F1Server.{Listening}
use central_unit.Cu.{CuCp}
use central_unit.Cu.Ngap.{
  dispatch, dispatch_ng_initiating, dispatch_ng_successful, as_downlink_nas, as_context_setup,
  as_ng_setup_response, handle_downlink_nas, handle_context_setup, handle_ng_setup_response,
}
use central_unit.Start.{waiting, init_context}
use central_unit.Start.Waiting.{init_context-waits}
use central_unit.System.{
  System, SerialStep, read_loop, cancel, receive, ng_task, serve, accept, f1_read, f1_skip, f1_end,
  f1_task, SerialRun, here, next,
}

-- The message decodes to an NG Setup Response.
pub IsSetupResponse : Env → Bytes → Type 0
IsSetupResponse env raw =
    (pdu : NgPdu) × (msg : NgSetupResponse) × (env.ng_decode raw ≡ some pdu)
    × (pdu.msg ≡ ng_setup_response msg)

-- Without a UE, an NGAP message panics, changes nothing, or is an NG Setup Response, after which
-- there is still no UE.
initiating-alone :
    (env : Env) (cu : CuCp) (code : ℕ) (msg : NgMessage) (cu' : CuCp)
    → cu.ue ≡ none
    → dispatch_ng_initiating env cu code msg ≡ done cu'
    → cu' ≡ cu
unfolding dispatch_ng_initiating as_downlink_nas as_context_setup handle_downlink_nas
    handle_context_setup
initiating-alone env cu code msg cu' h e = ground arith

successful-alone :
    (env : Env) (cu : CuCp) (code : ℕ) (msg : NgMessage) (cu' : CuCp)
    → dispatch_ng_successful env cu code msg ≡ done cu'
    → (cu' ≡ cu) ⊎ ((m : NgSetupResponse) × (msg ≡ ng_setup_response m) × (cu'.ue ≡ cu.ue))
unfolding dispatch_ng_successful as_ng_setup_response handle_ng_setup_response
successful-alone env cu code msg cu' e = ground arith

pdu_alone :
    (env : Env) (cu : CuCp) (raw : Bytes) (pdu : NgPdu) (cu' : CuCp)
    → cu.ue ≡ none
    → env.ng_decode raw ≡ some pdu
    → dispatch env cu raw ≡ done cu'
    → (cu' ≡ cu) ⊎ ((m : NgSetupResponse) × (pdu.msg ≡ ng_setup_response m))
unfolding dispatch
pdu_alone env cu raw pdu cu' h p e = ground (
  arith,
  initiating-alone env cu pdu.procedure_code pdu.msg cu' h,
  successful-alone env cu pdu.procedure_code pdu.msg cu',
)

dispatch-alone :
    (env : Env) (cu : CuCp) (raw : Bytes) (cu' : CuCp)
    → cu.ue ≡ none
    → dispatch env cu raw ≡ done cu'
    → (cu' ≡ cu) ⊎ IsSetupResponse env raw
unfolding dispatch IsSetupResponse
dispatch-alone env cu raw cu' h e = elim (Option-cases (env.ng_decode raw)) [
  | inl no_pdu ↦ ground arith
  | inr (pdu, p) ↦ elim (pdu_alone env cu raw pdu cu' h p e) [
    | inl same ↦ inl same
    | inr (m, q) ↦ inr (pdu, m, p, q)
  ]
]

-- Some message is an NG Setup Response.
pub data Answered (env : Env) : List Bytes → Type 0 where
  found : {raw : Bytes} {rest : List Bytes} → IsSetupResponse env raw → Answered env (raw ∷ rest)
  later : {raw : Bytes} {rest : List Bytes} → Answered env rest → Answered env (raw ∷ rest)

Answered-append :
    {env : Env} (raws more : List Bytes) → Answered env raws → Answered env (raws ++ more)
Answered-append [] more a = elim a [ ]
Answered-append (raw ∷ raws) more (found r) = found r
Answered-append (raw ∷ raws) more (later a) = later (Answered-append raws more a)

Answered-last :
    {env : Env} (raws : List Bytes) (raw : Bytes)
    → IsSetupResponse env raw
    → Answered env (raws ++ raw ∷ [])
Answered-last [] raw r = found r
Answered-last (x ∷ raws) raw r = later (Answered-last raws raw r)

-- No F1AP server, no UE, and no F1AP message.
pub record IsEarly (s : System) : Type 0 where
  pub listener : s.listener ≡ none
  pub ue : s.cu.ue ≡ none
  pub not_ready : s.cu.ready_signals ≡ 0
  pub f1_open : s.f1_open ≡ []
  pub f1_tasks : s.f1_tasks ≡ []
  pub f1_handled : s.f1_handled ≡ []

no-element :
    {A : Type 0} {l : List A} (xs : List A) (x : A) (ys : List A) → l ≡ xs ++ x ∷ ys → l ≢ []
no-element [] x ys e h = ground arith
no-element (y ∷ xs) x ys e h = ground arith

still-IsEarly :
    (s : System) (cu : CuCp) (n2 : Client) (tasks handled : List Bytes)
    → cu ≡ s.cu
    → IsEarly s
    → IsEarly (record s { cu = cu; n2 = n2; ng_tasks = tasks; ng_handled = handled })
still-IsEarly s cu n2 tasks handled e h = record {
  listener = h.listener;
  ue = ap (λ (k : CuCp). k.ue) e ∙ h.ue;
  not_ready = ap (λ (k : CuCp). k.ready_signals) e ∙ h.not_ready;
  f1_open = h.f1_open;
  f1_tasks = h.f1_tasks;
  f1_handled = h.f1_handled;
}

module _ (env : Env) (net : Network) (lib : Listening) where
  IsEarly-step :
      {s t : System}
      → SerialStep env net lib s t
      → IsEarly s
      → IsEarly t ⊎ Answered env t.ng_handled
  IsEarly-step {s} (read_loop _) h = inl (still-IsEarly s s.cu _ s.ng_tasks s.ng_handled refl h)
  IsEarly-step {s} cancel h = inl (still-IsEarly s s.cu _ s.ng_tasks s.ng_handled refl h)
  IsEarly-step {s} (receive _ _ _) h = inl (still-IsEarly s s.cu _ _ s.ng_handled refl h)
  IsEarly-step {s} (ng_task raw _ _ cu _ e) h = elim (dispatch-alone env s.cu raw cu h.ue e) [
    | inl same ↦ inl (still-IsEarly s cu s.n2 _ _ same h)
    | inr r ↦ inr (Answered-last s.ng_handled raw r)
  ]
  IsEarly-step (serve _ _ r _) h = absurd (omega (arith, h.not_ready, r))
  IsEarly-step (accept _ _ _ e _) h = cc (e, h.listener)
  IsEarly-step (f1_read c before after _ _ e _) h = absurd (no-element before c after e h.f1_open)
  IsEarly-step (f1_skip c before after _ e _) h = absurd (no-element before c after e h.f1_open)
  IsEarly-step (f1_end c before after _ e _) h = absurd (no-element before c after e h.f1_open)
  IsEarly-step (f1_task raw before after _ e _) h =
      absurd (no-element before raw after e h.f1_tasks)

  Answered-step :
      {s t : System}
      → SerialStep env net lib s t
      → Answered env s.ng_handled
      → Answered env t.ng_handled
  Answered-step (read_loop _) a = a
  Answered-step cancel a = a
  Answered-step (receive _ _ _) a = a
  Answered-step {s} (ng_task raw _ _ _ _ _) a = Answered-append s.ng_handled (raw ∷ []) a
  Answered-step (serve _ _ _ _) a = a
  Answered-step (accept _ _ _ _ _) a = a
  Answered-step (f1_read _ _ _ _ _ _ _) a = a
  Answered-step (f1_skip _ _ _ _ _ _) a = a
  Answered-step (f1_end _ _ _ _ _ _) a = a
  Answered-step (f1_task _ _ _ _ _ _) a = a

  ordered :
      {cu : CuCp} {s : System}
      → cu.ue ≡ none
      → cu.ready_signals ≡ 0
      → SerialRun env net lib cu s
      → IsEarly s ⊎ Answered env s.ng_handled
  ordered hu hr here = inl (record {
    listener = refl;
    ue = hu;
    not_ready = hr;
    f1_open = refl;
    f1_tasks = refl;
    f1_handled = refl;
  })
  ordered hu hr (next r k) = elim (ordered hu hr r) [
    | inl h ↦ IsEarly-step k h
    | inr a ↦ inr (Answered-step k a)
  ]

-- The order of the start, in runs in which no two handlers overlap. In every state after the wait for the
-- AMF has begun, an NG Setup Response has been handled, or there is no F1AP server, no UE, no open
-- F1AP connection and no F1AP message, handled or pending.
pub setup_before_f1 :
    (decimal : ℤ → Bytes) (net : Network) (lib : Listening) (env : Env) (cfg : Config) (cu : CuCp)
    (conn : SctpConn) (s : System)
    → init_context decimal net env cfg ≡ done (waiting cu conn)
    → SerialRun env net lib cu s
    → IsEarly s ⊎ Answered env s.ng_handled
setup_before_f1 decimal net lib env cfg cu conn s e r =
    let w = (init_context-waits decimal net env cfg cu conn e).0 in
    ordered env net lib w.ue w.not_ready r
