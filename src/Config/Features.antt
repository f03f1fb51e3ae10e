-- ===== src/Config/Features.antt =====
-- src/config.rs, `enable_feature`: what it does to the feature flags.
use text.Mathlib.Text.{◌==◌ as str_eq}
use text.Mathlib.TextEquality.{eq_iff}
use kode_bridge.Base.{
  ◌≡◌, refl, sym, subst, inl, inr, String, Bool, true, Option, none, some, if◌then◌else◌,
  Bool-cases, arith,
}
use kode_bridge.Config.{FeatureFlags, BuilderCall, enable_feature, enable_in}

-- A setting after a call that gives it a value, or none.
abbrev pub value_after {ℓ} : {A : Type ℓ} → Option A → A → A
value_after none old = old
value_after (some value) old = value

-- A feature that is asked for is on.
abbrev pub feature_of : String → BuilderCall → Option Bool
feature_of name (enable_feature feature) = if str_eq feature name then some true else none
feature_of name _ = none

-- What a feature that is asked for does to the flags.
pub record Enables (f : FeatureFlags) (feature : String) : Type 0 where
  pub compression_is :
      (enable_in feature f).compression
      ≡ value_after (feature_of "compression" (enable_feature feature)) f.compression
  pub caching_is :
      (enable_in feature f).caching
      ≡ value_after (feature_of "caching" (enable_feature feature)) f.caching
  pub metrics_is :
      (enable_in feature f).metrics
      ≡ value_after (feature_of "metrics" (enable_feature feature)) f.metrics
  pub keep_alive_is :
      (enable_in feature f).keep_alive
      ≡ value_after (feature_of "keep_alive" (enable_feature feature)) f.keep_alive
  pub auto_reconnect_is :
      (enable_in feature f).auto_reconnect
      ≡ value_after (feature_of "auto_reconnect" (enable_feature feature)) f.auto_reconnect
  pub http2_is : (enable_in feature f).http2_support ≡ f.http2_support

pub enable_in-Enables : (f : FeatureFlags) (feature : String) → Enables f feature
unfolding enable_in
enable_in-Enables f feature = elim (Bool-cases (str_eq feature "compression")) [
  | inl is ↦ subst (Enables f) (sym ((eq_iff feature "compression").0 is)) (on_compression f)
  | inr not_compression ↦ elim (Bool-cases (str_eq feature "caching")) [
    | inl is ↦ subst (Enables f) (sym ((eq_iff feature "caching").0 is)) (on_caching f)
    | inr not_caching ↦ elim (Bool-cases (str_eq feature "metrics")) [
      | inl is ↦ subst (Enables f) (sym ((eq_iff feature "metrics").0 is)) (on_metrics f)
      | inr not_metrics ↦ elim (Bool-cases (str_eq feature "keep_alive")) [
        | inl is ↦ subst (Enables f) (sym ((eq_iff feature "keep_alive").0 is)) (on_keep_alive f)
        | inr not_keep_alive ↦ elim (Bool-cases (str_eq feature "auto_reconnect")) [
          | inl is ↦
              subst (Enables f) (sym ((eq_iff feature "auto_reconnect").0 is)) (on_auto_reconnect f)
          | inr not_auto_reconnect ↦ record {
            compression_is = ground (
              arith, not_compression, not_caching, not_metrics, not_keep_alive, not_auto_reconnect,
            );
            caching_is = ground (
              arith, not_compression, not_caching, not_metrics, not_keep_alive, not_auto_reconnect,
            );
            metrics_is = ground (
              arith, not_compression, not_caching, not_metrics, not_keep_alive, not_auto_reconnect,
            );
            keep_alive_is = ground (
              arith, not_compression, not_caching, not_metrics, not_keep_alive, not_auto_reconnect,
            );
            auto_reconnect_is = ground (
              arith, not_compression, not_caching, not_metrics, not_keep_alive, not_auto_reconnect,
            );
            http2_is = ground (
              arith, not_compression, not_caching, not_metrics, not_keep_alive, not_auto_reconnect,
            );
          }
        ]
      ]
    ]
  ]
]
  where
    on_compression : (f : FeatureFlags) → Enables f "compression"
    on_compression f = record {
      compression_is = refl;
      caching_is = refl;
      metrics_is = refl;
      keep_alive_is = refl;
      auto_reconnect_is = refl;
      http2_is = refl;
    }

    on_caching : (f : FeatureFlags) → Enables f "caching"
    on_caching f = record {
      compression_is = refl;
      caching_is = refl;
      metrics_is = refl;
      keep_alive_is = refl;
      auto_reconnect_is = refl;
      http2_is = refl;
    }

    on_metrics : (f : FeatureFlags) → Enables f "metrics"
    on_metrics f = record {
      compression_is = refl;
      caching_is = refl;
      metrics_is = refl;
      keep_alive_is = refl;
      auto_reconnect_is = refl;
      http2_is = refl;
    }

    on_keep_alive : (f : FeatureFlags) → Enables f "keep_alive"
    on_keep_alive f = record {
      compression_is = refl;
      caching_is = refl;
      metrics_is = refl;
      keep_alive_is = refl;
      auto_reconnect_is = refl;
      http2_is = refl;
    }

    on_auto_reconnect : (f : FeatureFlags) → Enables f "auto_reconnect"
    on_auto_reconnect f = record {
      compression_is = refl;
      caching_is = refl;
      metrics_is = refl;
      keep_alive_is = refl;
      auto_reconnect_is = refl;
      http2_is = refl;
    }
