-- ===== src/Server/Inspect/Tests.antt =====
-- The container of a request is listed and shown.
use kubedock.Base.{◌≡◌, true, List, [], some, none, any_of, ok, false}
use kubedock.Server.World.{status}
use kubedock.Server.Filter.{Json}
use kubedock.Model.Database.Lookup.{image_keys, container_keys, network_keys}
use kubedock.Model.Database.Indexes.{indexes, indexes-IsMemDb}
use kubedock.Server.Containers.Tests.{counting}
use kubedock.Server.Create.Tests.{
  config, request, network_table, no_images, world, fresh_id, fresh_valid, fresh_short, after,
  create_answer,
}
use kubedock.Server.Inspect.{Info, container_info, container_list}
use kubedock.Server.Inspect.Listed.{shows_created, create-list-info}

-- it reads no filter
abbrev json : Json
json = record { decode_request = λ s. ([], false); decode_legacy = λ s. none }

create-list-info_example :
    ((infos : List Info) × (container_list
          (indexes container_keys)
          (indexes network_keys)
          (counting true)
          network_table
          config
          fresh_id
          7
          json
          (λ p t. ok false)
          []
          after.1
        ≡ (status 200, some infos, after.1))
      × (any_of (shows_created fresh_id) infos ≡ true))
    × ((info : Info) × ((container_info
            (indexes container_keys)
            (indexes network_keys)
            (counting true)
            network_table
            config
            fresh_id
            7
            true
            fresh_id
            after.1).0
          ≡ status 200)
        × ((container_info
              (indexes container_keys)
              (indexes network_keys)
              (counting true)
              network_table
              config
              fresh_id
              7
              true
              fresh_id
              after.1).1
            ≡ some info)
        × (shows_created fresh_id info ≡ true))
create-list-info_example =
    create-list-info (indexes container_keys) (indexes network_keys) (indexes image_keys)
      (counting true) network_table no_images config fresh_id 7 (indexes-IsMemDb container_keys)
      json (λ p t. ok false) true request [] world fresh_valid fresh_short create_answer
