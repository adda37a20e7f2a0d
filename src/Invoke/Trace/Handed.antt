-- ===== src/Invoke/Trace/Handed.antt =====
-- The context of one call of the stub.
use gax_go.Prelude.{
  ℕ, suc, ◌≡◌, inl, inr, refl, ap, ◌∙◌, arith, List, [], ◌∷◌, Option, none, some, Bool, true, false,
  Bool-cases, if◌then◌else◌,
}
use gax_go.Prelude.Text.{Text, codes, itoa, text_eq}
use gax_go.Prelude.Int.{pos, eq_ℤ, ℤ}
use gax_go.Apierror.Types.{ErrorApi}
use gax_go.Context.{Context, Key, Value, value, with_value, value-with_value, key_eq}
use gax_go.Callctx.{telemetry_from_context, odd_length}
use gax_go.Callctx.Telemetry.{with_telemetry_context_lem}
use gax_go.Feature.{Features}
use gax_go.Invoke.{Env, Settings, derives, with_timeout, call_context, with_retry_count}
use gax_go.Invoke.Success.{measures, traces, loop_context}

telemetry_of_value :
    (c c' : Context) (k : Text)
    → value c (Key.telemetry_key k) ≡ value c' (Key.telemetry_key k)
    → telemetry_from_context c k ≡ telemetry_from_context c' k
unfolding telemetry_from_context
telemetry_of_value c c' k e = ground arith

module _ (api : ErrorApi) (env : Env api) (environ : List Text) (f : Features) (ctx : Context)
    (settings : Settings api env) (w : Env.World env) where
  -- The deadline of the caller, or else the timeout of the settings, if that is not 0.
  abbrev pub deadline_given : Option ℤ → Option ℤ
  deadline_given (some d) = some d
  deadline_given none =
      if eq_ℤ settings.timeout (pos 0) then none else some (env.after settings.timeout w)

  -- The context of the call after `n` retries.
  pub record IsHanded (n : ℕ) (c : Context) : Type 0 where
    pub time : c.deadline ≡ deadline_given ctx.deadline
    pub headers : value c Key.header_key ≡ value ctx Key.header_key
    pub logger : value c Key.logger_key ≡ value ctx Key.logger_key
    pub foreign : (m : ℕ) → value c (Key.foreign_key m) ≡ value ctx (Key.foreign_key m)
    pub transport : value c Key.transport_telemetry_key ≡ (
        if measures api env environ f ctx settings w
        then some (Value.transport_data (env.new_transport_data w).0)
        else value ctx Key.transport_telemetry_key)
    pub telemetry :
        (k : Text)
        → telemetry_from_context c k ≡ (
            if traces api env environ f ctx settings w
            then if text_eq (codes "resend_count") k
              then some (itoa n)
              else telemetry_from_context ctx k
            else telemetry_from_context ctx k)

  abbrev pub AllHanded : ℕ → List Context → Type 0
  AllHanded n [] = Unit
  AllHanded n (c ∷ cs) = IsHanded n c × AllHanded (suc n) cs

  value-with_timeout : (k : Key) → value (with_timeout api env ctx settings w) k ≡ value ctx k
  unfolding with_timeout value
  value-with_timeout k = ground arith

  deadline-with_timeout :
      (with_timeout api env ctx settings w).deadline ≡ deadline_given ctx.deadline
  unfolding with_timeout derives
  deadline-with_timeout = ground arith

  abbrev c0 : Context
  c0 = loop_context api env environ f ctx settings w

  -- METRICS sets the transport data.
  value-loop_context :
      (k : Key)
      → value c0 k ≡ (
          if measures api env environ f ctx settings w
          then if key_eq Key.transport_telemetry_key k
            then some (Value.transport_data (env.new_transport_data w).0)
            else value ctx k
          else value ctx k)
  value-loop_context k = elim (Bool-cases (measures api env environ f ctx settings w)) [
    | inl on ↦ rw on (
        value-with_value (with_timeout api env ctx settings w) Key.transport_telemetry_key k
          (Value.transport_data (env.new_transport_data w).0)
        ∙ rw (value-with_timeout k) refl)
    | inr off ↦ rw off (value-with_timeout k)
  ]

  value-other : (k : Key) → key_eq Key.transport_telemetry_key k ≡ false → value c0 k ≡ value ctx k
  value-other k other = value-loop_context k ∙ ground arith

  pub deadline-loop_context : c0.deadline ≡ deadline_given ctx.deadline
  unfolding with_value
  deadline-loop_context = elim (Bool-cases (measures api env environ f ctx settings w)) [
    | inl on ↦ rw on deadline-with_timeout
    | inr off ↦ rw off deadline-with_timeout
  ]

  abbrev tracing : Bool
  tracing = traces api env environ f ctx settings w

  untraced : (n : ℕ) → tracing ≡ false → IsHanded n (call_context api env c0 tracing n)
  unfolding call_context key_eq
  untraced n off =
      rw (off, call_context)
        (record {
          time = deadline-loop_context;
          headers = value-other Key.header_key refl;
          logger = value-other Key.logger_key refl;
          foreign = λ m. value-other (Key.foreign_key m) refl;
          transport = value-loop_context Key.transport_telemetry_key;
          telemetry =
              λ k. rw off (telemetry_of_value c0 ctx k (value-other (Key.telemetry_key k) refl));
        })

  traced : (n : ℕ) → tracing ≡ true → IsHanded n (call_context api env c0 tracing n)
  unfolding call_context with_retry_count key_eq odd_length
  traced n on =
      let (c, e, given, headers, log, transport, foreign, time) =
        with_telemetry_context_lem c0 (codes "resend_count" ∷ itoa n ∷ []) refl in
      rw (on, e, call_context, with_retry_count)
        (record {
          time = time ∙ deadline-loop_context;
          headers = headers ∙ value-other Key.header_key refl;
          logger = log ∙ value-other Key.logger_key refl;
          foreign = λ m. foreign m ∙ value-other (Key.foreign_key m) refl;
          transport = transport ∙ value-loop_context Key.transport_telemetry_key;
          telemetry = λ k.
              given k
              ∙ rw on (
                  ap
                    (λ (old : Option Text).
                      if text_eq (codes "resend_count") k then some (itoa n) else old)
                    (telemetry_of_value c0 ctx k (value-other (Key.telemetry_key k) refl)));
        })

  pub call_context-IsHanded : (n : ℕ) → IsHanded n (call_context api env c0 tracing n)
  call_context-IsHanded n = elim (Bool-cases tracing) [
    | inl on ↦ traced n on
    | inr off ↦ untraced n off
  ]
