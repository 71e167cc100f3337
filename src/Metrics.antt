-- ===== src/Metrics.antt =====
-- metrics/metrics.go: the collectors of a service and their registration. Prometheus is not part of the
-- repository: its registerer is a parameter of the model.
use aisphere_kit.Base.{
  Text, codes, List, [], ◌∷◌, Result, ok, err, Io, pure, ◌>>=◌, ◌>>◌, and_then, Error,
}
use aisphere_kit.Config.Types.{MetricsConfig}
pub mod Registering

-- What prometheus.CounterOpts and prometheus.HistogramOpts are given, without the help.
pub record Options : Type 0 where
  pub namespace : Text
  pub subsystem : Text
  pub name : Text
  pub labels : List Text

-- A histogram has the default buckets.
pub data Collector : Type 0 where
  counter : Options → Collector
  histogram : Options → Collector

-- The answer of Register: no error, an AlreadyRegisteredError, or another error.
pub data Answer : Type 0 where
  registered : Answer
  already : Answer
  refused : Error → Answer

pub record Registerer (W : Type 0) : Type 0 where
  pub register : Collector → W → Answer × W

pub record Metrics : Type 0 where
  pub requests : Collector
  pub duration : Collector
  pub dependency_duration : Collector
  pub dependency_errors : Collector

-- `if s == "" { s = t }`
abbrev or_default : Text → Text → Text
or_default [] t = t
or_default (c ∷ s) t = c ∷ s

unfoldable pub with_defaults : MetricsConfig → Text → MetricsConfig
with_defaults cfg component = record {
  namespace = or_default cfg.namespace (codes "aisphere");
  subsystem = or_default cfg.subsystem component;
}

abbrev pub options : MetricsConfig → Text → List Text → Options
options cfg name labels = record {
  namespace = cfg.namespace;
  subsystem = cfg.subsystem;
  name = name;
  labels = labels;
}

unfoldable pub collectors : MetricsConfig → Metrics
collectors cfg = record {
  requests = counter (options cfg (codes "requests_total") (codes "operation" ∷ codes "code" ∷ []));
  duration = histogram (options cfg (codes "request_duration_seconds") (codes "operation" ∷ []));
  dependency_duration = histogram (
      options cfg (codes "dependency_duration_seconds")
        (codes "dependency" ∷ codes "operation" ∷ []));
  dependency_errors =
      counter (
        options cfg (codes "dependency_errors_total")
          (codes "dependency" ∷ codes "operation" ∷ []));
}

module _ {W : Type 0} (registerer : Registerer W) where
  abbrev pub unless_refused : Answer × W → Result (Unit {0}) × W
  unless_refused (registered, w) = (ok tt, w)
  unless_refused (already, w) = (ok tt, w)
  unless_refused (refused e, w) = (err e, w)

  unfoldable pub register : Collector → Io W (Unit {0})
  register c w = unless_refused (registerer.register c w)

  abbrev pub register_all : Metrics → Io W Metrics
  register_all m = do
    register m.requests
    register m.duration
    register m.dependency_duration
    register m.dependency_errors
    pure m

  -- New, which registers with the registerer of the process.
  unfoldable pub new_metrics : MetricsConfig → Text → Io W Metrics
  unfolding collectors register
  new_metrics cfg component = register_all (collectors (with_defaults cfg component))
