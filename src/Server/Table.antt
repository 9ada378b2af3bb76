-- ===== src/Server/Table.antt =====
-- server/src/server.cpp: properties of every row of a table of handlers.
use network_final_project.Base.{◌≡◌, String, some, List, [], ◌∷◌, eq_iff, arith}
use network_final_project.Codec.Json.{JsonApi}
use network_final_project.Db.{Floats}
use network_final_project.Handlers.{JsonData}
use network_final_project.Server.{
  Body, register_handler, find_handler, register_all, registrations, main_handlers,
}

infixr 4 ◌also◌
pub ◌also◌ : {A B : Type 0} → A → B → A × B
p also q = (p, q)

-- What holds of every row of a table of handlers.
module _ {H : Type 0} (P : String → H → Type 0) where
  abbrev pub AllHandlers : List (String × H) → Type 0
  AllHandlers [] = Unit
  AllHandlers ((action, h) ∷ rest) = P action h × AllHandlers rest

  register_handler-AllHandlers :
      (action : String) (h : H) (table : List (String × H))
      → P action h
      → AllHandlers table
      → AllHandlers (register_handler action h table)
  unfolding register_handler
  register_handler-AllHandlers action h [] p all = (p, tt)
  register_handler-AllHandlers action h ((key, h') ∷ rest) p all =
      ground (arith, register_handler-AllHandlers action h rest p all.1)

  pub find_handler-AllHandlers :
      (action : String) (table : List (String × H)) (h : H)
      → AllHandlers table
      → find_handler action table ≡ some h
      → P action h
  unfolding find_handler
  find_handler-AllHandlers action [] h all e = cc
  find_handler-AllHandlers action ((key, h') ∷ rest) h all e =
      ground (arith, find_handler-AllHandlers action rest h all.1, eq_iff key action)

module _ {J D : Type 0} (js : JsonApi J) (jd : JsonData J D) (fl : Floats D)
    (P : String → Body J D → Type 0) where
  register_all-AllHandlers :
      (rows table : List (String × Body J D))
      → AllHandlers P rows
      → AllHandlers P table
      → AllHandlers P (register_all js jd fl rows table)
  register_all-AllHandlers [] table all start = start
  register_all-AllHandlers ((action, body) ∷ rest) table all start =
      register_all-AllHandlers rest _ all.1
        (register_handler-AllHandlers P action body table all.0 start)

  -- Of a handler that main has registered.
  pub main_handlers-AllHandlers :
      AllHandlers P (registrations js jd fl)
      → (action : String) (body : Body J D)
      → find_handler action (main_handlers js jd fl) ≡ some body
      → P action body
  unfolding main_handlers
  main_handlers-AllHandlers all action body found =
      find_handler-AllHandlers P action (main_handlers js jd fl) body
        (register_all-AllHandlers (registrations js jd fl) [] all tt) found
