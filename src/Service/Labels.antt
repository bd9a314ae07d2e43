-- ===== src/Service/Labels.antt =====
-- The labels of an entry that `LogService` makes.
use logs_interceptor_python.Base.{String, ◌≡◌, ◌∙◌, ap, String_comparable}
use logs_interceptor_python.Base.Dict.{Dict, lookup, latest, update, lookup-update}
use logs_interceptor_python.Domain.{LogLevel}
use logs_interceptor_python.Service.{ServiceConfig, base_labels, all_labels}

module _ (config : ServiceConfig) where
  -- The value of any label of an entry is that of the dynamic labels if they have the key, else
  -- that of the configured labels, else that of the built-in ones.
  pub lookup-all_labels :
      (level : LogLevel) (dynamic : Dict String String) (key : String)
      → lookup key (all_labels config level dynamic)
        ≡ latest key dynamic (latest key config.labels (lookup key (base_labels config level)))
  unfolding all_labels
  lookup-all_labels level dynamic key =
      lookup-update key (update (base_labels config level) config.labels) dynamic
      ∙ ap (latest key dynamic) (lookup-update key (base_labels config level) config.labels)
