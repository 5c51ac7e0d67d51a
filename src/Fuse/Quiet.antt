-- ===== src/Fuse/Quiet.antt =====
-- What the device is asked about storages and objects: no reply, and the object cache as it was.
use zune_sync.Base.{
  ℕ, zero, suc, ◌==◌, ◌&&◌, refl, inl, inr, Bool-cases, List, [], ◌∷◌, Result, ok, err,
}
use zune_sync.Base.Stateful
use zune_sync.Base.Stateful.{Stateful, ◌>>=◌, ◌>>◌, every_way}
use zune_sync.Codes.ObjectFormat
use zune_sync.Codes.ObjectProperty
use zune_sync.Stream.Input
use zune_sync.Stream.Input.{Reader, InputStream, read32, open_stream}
use zune_sync.PropertyList.Parser.{Property, parse_property, each_property, parse_each}
use zune_sync.Messages.Object.{ObjectInfo, max_object_size}
use zune_sync.Messages.Device.{storage_name}
use zune_sync.Fuse.State.{FuseSession, Fuse, Host, Method, State, set_attr_at, set_children_at}
use zune_sync.Fuse.Listing.{
  storage_path, clear_storages, record_storage, add_child, set_info, finish_info, add_storages,
  populate_storages, object_size, get_object_info, is_listed, each_value, query_value, parse_values,
  get_object_property_list,
}
use zune_sync.Fuse.Steady.{
  IsKept, same-IsKept, trans-IsKept, IsSteady, bind-IsSteady, return-IsSteady, lift-IsSteady,
  call-IsSteady, change-IsSteady, catch-IsSteady, for_each-IsSteady, if-IsSteady,
}

module _ (C : FuseSession) (host : Host (State C)) where
  add_storages-IsSteady : (i : ℕ) (ids : List ℕ) → IsSteady C (add_storages C host i ids)
  unfolding add_storages record_storage
  add_storages-IsSteady i [] = return-IsSteady C tt
  add_storages-IsSteady i (id ∷ ids) =
      bind-IsSteady C _ _ (call-IsSteady C (C.client.get_storage_info id)) λ info.
        bind-IsSteady C _ _
          (change-IsSteady C (record_storage id (storage_path (storage_name info) i)) (λ f. refl)
            (λ f. refl))
          λ _. add_storages-IsSteady (suc i) ids

  pub populate_storages-IsSteady : IsSteady C (populate_storages C host)
  unfolding populate_storages clear_storages
  populate_storages-IsSteady =
      bind-IsSteady C _ _ (change-IsSteady C clear_storages (λ f. refl) (λ f. refl)) λ _.
        bind-IsSteady C _ _ (call-IsSteady C C.client.base.get_storage_ids)
          λ ids. add_storages-IsSteady 0 ids.storage_ids

  object_size-IsSteady : (id : ℕ) (info : ObjectInfo) → IsSteady C (object_size C host id info)
  unfolding object_size
  object_size-IsSteady id info =
      if-IsSteady C (info.object_compressed_size == max_object_size) _ _
        (call-IsSteady C (C.client.base.get_object_integer_property id ObjectProperty.object_size))
        (return-IsSteady C info.object_compressed_size)

  pub get_object_info-IsSteady : (inode id : ℕ) → IsSteady C (get_object_info C host inode id)
  unfolding get_object_info add_child set_info finish_info set_attr_at set_children_at
  get_object_info-IsSteady inode id =
      bind-IsSteady C _ _ (call-IsSteady C (C.client.get_object_info id)) λ info.
        bind-IsSteady C _ _
          (change-IsSteady C (add_child inode info.filename id) (λ f. refl) (λ f. refl))
          λ _.
            bind-IsSteady C _ _ (change-IsSteady C (set_info host id info) (λ f. refl) (λ f. refl))
              λ _.
                bind-IsSteady C _ _ (object_size-IsSteady id info)
                  λ size. change-IsSteady C (finish_info id size) (λ f. refl) (λ f. refl)

  module _ {A : Type 0} (property : ℕ) (callback : ℕ → A → Method C (Unit {0}))
      (quiet : (id : ℕ) (a : A) → IsSteady C (callback id a)) where
    each_value-IsKept :
        (p : Property A) (x : List (ℕ × Unit {0}) × (Fuse × State C))
        → IsKept x.1.0 (each_value C host property callback p x).1.1.0
    unfolding each_value
    each_value-IsKept p x =
        elim (Bool-cases ((property == p.property) && is_listed p.object_id x.0)) [
          | inl e ↦ rw (e) ((quiet p.object_id p.value).kept x.1)
          | inr e ↦ rw (e) (same-IsKept x.1.0)
        ]

    each_property-IsKept :
        (parser : ℕ → Reader A) (n : ℕ) (s : InputStream)
        (x : List (ℕ × Unit {0}) × (Fuse × State C))
        → IsKept x.1.0 (each_property parser (each_value C host property callback) n s x).1.1.0
    unfolding each_property
    each_property-IsKept parser zero s x = same-IsKept x.1.0
    each_property-IsKept parser (suc n) s x =
        go (each_property-IsKept parser n) (parse_property parser s)
      where
        go :
            ((s' : InputStream) (y : List (ℕ × Unit {0}) × (Fuse × State C))
              → IsKept y.1.0
                  (each_property parser (each_value C host property callback) n s' y).1.1.0)
            → (r : Result (Property A × InputStream))
            → IsKept x.1.0
                ((elim r as (λ _. Stateful (List (ℕ × Unit {0}) × (Fuse × State C)) (Unit {0})) [
                  | err e ↦ Stateful.throw e
                  | ok (p, s') ↦
                      each_value C host property callback p
                      >> each_property parser (each_value C host property callback) n s'
                ])
                  x).1.1.0
        go ih (err e) = same-IsKept x.1.0
        go ih (ok (p, s')) =
            every_way (λ s t. IsKept s.1.0 t.1.0) (λ s t u. trans-IsKept s.1.0 t.1.0 u.1.0)
              (each_value C host property callback p)
              (λ _. each_property parser (each_value C host property callback) n s')
              (each_value-IsKept p) (λ _. ih s') x

    parse_each-IsKept :
        (parser : ℕ → Reader A) (bytes : List ℕ) (x : List (ℕ × Unit {0}) × (Fuse × State C))
        → IsKept x.1.0 (parse_each parser (each_value C host property callback) bytes x).1.1.0
    unfolding parse_each
    parse_each-IsKept parser bytes x = go (read32 (open_stream bytes))
      where
        go :
            (r : Result (ℕ × InputStream))
            → IsKept x.1.0
                ((elim r as (λ _. Stateful (List (ℕ × Unit {0}) × (Fuse × State C)) (Unit {0})) [
                  | err e ↦ Stateful.throw e
                  | ok (n, s) ↦ each_property parser (each_value C host property callback) n s
                ])
                  x).1.1.0
        go (err e) = same-IsKept x.1.0
        go (ok (n, s)) = each_property-IsKept parser n s x

    parse_values-IsSteady :
        (parser : ℕ → Reader A) (bytes : List ℕ) (objects : List (ℕ × Unit {0}))
        → IsSteady C (parse_values C host property callback parser bytes objects)
    unfolding parse_values
    parse_values-IsSteady parser bytes objects = record {
      kept = λ w.
          go (parse_each parser (each_value C host property callback) bytes (objects, w)) w
            (parse_each-IsKept parser bytes (objects, w));
    }
      where
        go :
            (r : Result (Unit {0}) × (List (ℕ × Unit {0}) × (Fuse × State C))) (w : Fuse × State C)
            → IsKept w.0 r.1.1.0
            → IsKept w.0
                (elim r.0 as (λ _. Result (List (ℕ × Unit {0})) × (Fuse × State C)) [
                  | err e ↦ (err e, r.1.1)
                  | ok _ ↦ (ok r.1.0, r.1.1)
                ]).1.0
        go (err e, x) w h = h
        go (ok _, x) w h = h

    query_value-IsSteady :
        (reader : Reader A) (object : ℕ × Unit {0})
        → IsSteady C (query_value C host property callback reader object)
    unfolding query_value
    query_value-IsSteady reader object =
        catch-IsSteady C _ _
          (bind-IsSteady C _ _ (call-IsSteady C (C.get_object_property object.0 property)) λ bytes.
            bind-IsSteady C _ _ (lift-IsSteady C (Input.run reader bytes))
              λ value. quiet object.0 value)
          (return-IsSteady C tt)

    pub get_object_property_list-IsSteady :
        (parser : ℕ → Reader A) (reader : Reader A) (parent : ℕ) (objects : List (ℕ × Unit {0}))
        → IsSteady C
            (get_object_property_list C host property callback parser reader parent objects)
    unfolding get_object_property_list
    get_object_property_list-IsSteady parser reader parent objects =
        bind-IsSteady C _ _
          (call-IsSteady C
            (C.client.base.get_object_property_list parent ObjectFormat.any property 0 1))
          λ bytes. bind-IsSteady C _ _ (parse_values-IsSteady parser bytes objects) λ missing.
            for_each-IsSteady C (query_value C host property callback reader) missing
              (query_value-IsSteady reader)
