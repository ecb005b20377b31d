-- ===== src/Modules/Remote/Config.antt =====
-- What the configured services satisfy, and which of two entries for one name is taken.
use test_bot.Base.{ℕ, ◌≡◌, refl, ◌≢◌, Bool, List, [], ◌∷◌, arith}
use test_bot.Base.{◌==◌, nat_eq, list_eq, All}
use test_bot.Base.Dict.{Dict, insert, update, NodupKeys, insert-NodupKeys, update-NodupKeys}
use test_bot.Text.{Text, strip, rstrip_by, rstrip_by-NoTrail, partition, NoTrail}
use test_bot.Value.{Runtime, Float}
use test_bot.Env.{Env}
use test_bot.Modules.Remote.{
  RemoteModuleService, add_service, add_services, service_map, split_services, default_services,
  explicit_services, service_dict,
}

abbrev is_slash : ℕ → Bool
is_slash c = c == b'/'

-- An entry as it is kept: its key is the service's name, neither the name nor the address
-- is empty, and the address does not end with a slash.
abbrev pub IsTrimmed : (Text × RemoteModuleService) → Type 0
IsTrimmed (k, s) = (s.name ≡ k) × (k ≢ []) × (s.base_url ≢ []) × NoTrail is_slash s.base_url

abbrev IsSound : Dict Text RemoteModuleService → Type 0
IsSound d = NodupKeys d × All IsTrimmed d

insert-All :
    (k : Text) (s : RemoteModuleService) (d : Dict Text RemoteModuleService)
    → IsTrimmed (k, s)
    → All IsTrimmed d
    → All IsTrimmed (insert k s d)
unfolding insert
insert-All k s [] h hs = (h, tt)
insert-All k s ((j, t) ∷ d) h (g, hs) = ground (arith, insert-All k s d h hs)

module _ (timeout : Float) where
  add_service-IsSound :
      (entry : Text) (d : Dict Text RemoteModuleService)
      → IsSound d
      → IsSound (add_service timeout entry d)
  unfolding add_service
  add_service-IsSound entry d (u, a) =
      let parts = partition b'=' entry in
      let name = strip parts.before in
      let url = rstrip_by is_slash (strip parts.after) in
      let service : RemoteModuleService = record {
        name = name;
        base_url = url;
        timeout = timeout;
      } in
      ground (
        arith,
        insert-NodupKeys name service d u,
        λ (n : name ≢ []) (m : url ≢ []).
            insert-All name service d (refl, n, m, rstrip_by-NoTrail is_slash (strip parts.after))
              a,
      )

  add_services-IsSound :
      (entries : List Text) (d : Dict Text RemoteModuleService)
      → IsSound d
      → IsSound (add_services timeout entries d)
  unfolding add_services
  add_services-IsSound [] d h = h
  add_services-IsSound (entry ∷ entries) d h =
      add_services-IsSound entries (add_service timeout entry d) (add_service-IsSound entry d h)

  service_map-IsSound : (value : Text) → IsSound (service_map timeout value)
  unfolding service_map
  service_map-IsSound value = add_services-IsSound (split_services value) [] (tt, tt)

update-All :
    (d other : Dict Text RemoteModuleService)
    → All IsTrimmed d
    → All IsTrimmed other
    → All IsTrimmed (update d other)
unfolding update
update-All d [] h g = h
update-All d ((k, s) ∷ other) h (g, gs) = update-All (insert k s d) other (insert-All k s d g h) gs

module _ (rt : Runtime) (env : Env) where
  default_services-IsSound : IsSound (default_services rt env)
  default_services-IsSound = service_map-IsSound _ _

  explicit_services-IsSound : IsSound (explicit_services rt env)
  explicit_services-IsSound = service_map-IsSound _ _

-- The configured services have distinct names; none has an empty name or address, none has an
-- address that ends in a slash, and each stands under its own name.
pub service_dict-IsTrimmed :
    (rt : Runtime) (env : Env)
    → NodupKeys (service_dict rt env) × All IsTrimmed (service_dict rt env)
unfolding service_dict
service_dict-IsTrimmed rt env =
    let d = default_services-IsSound rt env in
    let other = explicit_services-IsSound rt env in
    (
      update-NodupKeys (default_services rt env) (explicit_services rt env) d.0,
      update-All (default_services rt env) (explicit_services rt env) d.1 other.1,
    )
