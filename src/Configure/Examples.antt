-- ===== src/Configure/Examples.antt =====
-- internal/configure: the theorems at concrete inputs.
use event_api.Base.{is_listed, ◌≡◌, refl, List, [], map, Bytes, codes, length, true, ◌↔◌, bytes_dec}
use event_api.Configure.{config_fields, bind_envs, join, init_logging, Level}
use event_api.Configure.Binding.{bind_envs_lem, paths, leads}

bind_envs_lem_example :
    (bind_envs config_fields [] ≡ map (join b'.') (paths config_fields))
    × ((k : Bytes)
        → (is_listed k (bind_envs config_fields []) ≡ true)
          ↔ ((p : List Bytes) × (leads config_fields p ≡ true) × (k ≡ join b'.' p)))
bind_envs_lem_example = bind_envs_lem config_fields

-- All settings of `Config` are bound.
bound_settings : length (bind_envs config_fields []) ≡ 28
unfolding bind_envs
bound_settings = refl

init_logging_unknown : init_logging (codes "verbose") ≡ Level.info
unfolding init_logging bytes_dec
init_logging_unknown = refl
