-- ===== src/Telemetry/Client/Laws.antt =====
-- The options and the attributes of a client.
use gax_go.Prelude.{◌≡◌, refl, List, [], ◌∷◌, Option, none, some, arith}
use mathlib.Core.Path.{subst, sym}
use gax_go.Prelude.Text.{Text, codes, text_eq}
use gax_go.Prelude.Dict.{Dict, get}
use gax_go.Telemetry.Metric.{AttrValue, Attribute, attributes, duration_histogram}
use gax_go.Telemetry.Metric.Laws.{IsStatic}
use gax_go.Telemetry.Metric.Values.{values_of}
use gax_go.Telemetry.Client.{
  Otel, TelemetryOption, TelemetryOptions, resolve_options, zero_options, load_metrics,
  new_client_metrics, client_attributes, copy_attr, meter_config, meter_provider, bucket_boundaries,
  key_url_domain, key_rpc_system_name, default_histogram_boundaries,
}

module _ (otel : Otel) where
  -- The value of the last option of a kind, and the field's own value if there is none.
  abbrev pub last_provider :
      List (TelemetryOption otel) → Option otel.Provider → Option otel.Provider
  last_provider [] v = v
  last_provider (TelemetryOption.provider_opt p ∷ opts) v = last_provider opts p
  last_provider (_ ∷ opts) v = last_provider opts v

  abbrev pub last_attributes : List (TelemetryOption otel) → Dict Text → Dict Text
  last_attributes [] v = v
  last_attributes (TelemetryOption.attr_opt a ∷ opts) v = last_attributes opts a
  last_attributes (_ ∷ opts) v = last_attributes opts v

  abbrev pub last_boundaries : List (TelemetryOption otel) → List otel.Float → List otel.Float
  last_boundaries [] v = v
  last_boundaries (TelemetryOption.boundaries_opt b ∷ opts) v = last_boundaries opts b
  last_boundaries (_ ∷ opts) v = last_boundaries opts v

  resolve_options_lem :
      (opts : List (TelemetryOption otel)) (o : TelemetryOptions otel)
      → let t = resolve_options otel opts o in
        (t.provider ≡ last_provider opts o.provider)
        × (t.attributes ≡ last_attributes opts o.attributes)
        × (t.explicit_bucket_boundaries ≡ last_boundaries opts o.explicit_bucket_boundaries)
  unfolding resolve_options
  resolve_options_lem [] o = (refl, refl, refl)
  resolve_options_lem (TelemetryOption.provider_opt p ∷ opts) o =
      resolve_options_lem opts (record o { provider = p })
  resolve_options_lem (TelemetryOption.attr_opt a ∷ opts) o =
      resolve_options_lem opts (record o { attributes = a })
  resolve_options_lem (TelemetryOption.boundaries_opt b ∷ opts) o =
      resolve_options_lem opts (record o { explicit_bucket_boundaries = b })
  resolve_options_lem (TelemetryOption.logger_opt l ∷ opts) o =
      resolve_options_lem opts (record o { logger = l })

  abbrev pub or_else : {A : Type 0} → Option A → A → A
  or_else none d = d
  or_else (some a) d = a

  abbrev pub boundaries_or : List otel.Float → List otel.Float → List otel.Float
  boundaries_or [] d = d
  boundaries_or (b ∷ bs) d = b ∷ bs

  -- The attribute values that a text of the map gives.
  abbrev pub copied : Option Text → List AttrValue
  copied none = []
  copied (some s) = AttrValue.string_value s ∷ []

  -- The two attributes of a client, where it has their texts.
  abbrev two : Option Text → Option Text → List Attribute
  two none none = []
  two none (some s) = (key_rpc_system_name, AttrValue.string_value s) ∷ []
  two (some u) none = (key_url_domain, AttrValue.string_value u) ∷ []
  two (some u) (some s) =
      (key_url_domain, AttrValue.string_value u)
      ∷ (key_rpc_system_name, AttrValue.string_value s)
      ∷ []

  client_attributes-two :
      (o : TelemetryOptions otel)
      → client_attributes otel o
        ≡ two (get o.attributes (codes "url_domain")) (get o.attributes (codes "rpc_system"))
  unfolding client_attributes copy_attr
  client_attributes-two o = ground arith

  abbrev pub Carries : List Attribute → Option Text → Option Text → Type 0
  Carries attrs url_domain rpc_system =
      (values_of attrs key_url_domain ≡ copied url_domain)
      × (values_of attrs key_rpc_system_name ≡ copied rpc_system)
      × IsStatic attrs

  two-Carries : (u s : Option Text) → Carries (two u s) u s
  unfolding text_eq
  two-Carries none none = (refl, refl, (refl, refl, refl, refl, refl, refl, refl))
  two-Carries none (some s) = (refl, refl, (refl, refl, refl, refl, refl, refl, refl))
  two-Carries (some u) none = (refl, refl, (refl, refl, refl, refl, refl, refl, refl))
  two-Carries (some u) (some s) = (refl, refl, (refl, refl, refl, refl, refl, refl, refl))

  meter_provider_lem :
      (o : TelemetryOptions otel)
      → meter_provider otel o ≡ or_else o.provider otel.get_meter_provider
  unfolding meter_provider
  meter_provider_lem o = ground arith

  bucket_boundaries_lem :
      (o : TelemetryOptions otel)
      → bucket_boundaries otel o
        ≡ boundaries_or o.explicit_bucket_boundaries (default_histogram_boundaries otel)
  unfolding bucket_boundaries
  bucket_boundaries_lem o = ground arith

  -- A new client has the histogram that the last given provider makes, or else the global one, over
  -- the last given boundaries, or else the default ones. Of the last given attributes it carries the
  -- domain and the system, each if it is there, and no key that a measurement adds.
  pub new_client_metrics_lem :
      (opts : List (TelemetryOption otel))
      → let cm = some (new_client_metrics otel opts) in
        let o = resolve_options otel opts (zero_options otel) in
        let attrs = last_attributes opts [] in
        (duration_histogram cm
          ≡ (otel.float64_histogram
              (or_else (last_provider opts none) otel.get_meter_provider)
              (meter_config otel o)
              (boundaries_or (last_boundaries opts []) (default_histogram_boundaries otel))).0)
        × (o.attributes ≡ attrs)
        × Carries (attributes cm) (get attrs (codes "url_domain")) (get attrs (codes "rpc_system"))
  unfolding new_client_metrics load_metrics attributes duration_histogram
  new_client_metrics_lem opts =
      let o = resolve_options otel opts (zero_options otel) in
      let (p, a, b) = resolve_options_lem opts (zero_options otel) in
      (
        rw (meter_provider_lem o, bucket_boundaries_lem o, p, b) refl,
        a,
        subst
            (λ m.
              Carries (client_attributes otel o) (get m (codes "url_domain"))
                (get m (codes "rpc_system")))
            a
            (subst
              (λ l.
                Carries l (get o.attributes (codes "url_domain"))
                  (get o.attributes (codes "rpc_system")))
              (sym (client_attributes-two o)) (two-Carries _ _)),
      )
