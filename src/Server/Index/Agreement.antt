-- ===== src/Server/Index/Agreement.antt =====
-- The index of `load_gfef_index` and that of an upload.
use cyan_flame_control_plane.Prelude.{
  ℕ, ◌≡◌, refl, ap₂, ◌⊎◌, inl, inr, Option-cases, String, Option, none, some, [], ◌∷◌, ok, err,
}
use cyan_flame_control_plane.Server.Json.{Json, null, Elements, stop, item}
use cyan_flame_control_plane.Server.Index.{
  get, at_key, as_u64, as_str, as_array, chain, or_default, or_null, uploaded_layer, loaded_layer,
  layers_of, uploaded_index, loaded, loaded_index, as_u32,
}

module _ {F : Type 0} where
  -- A missing member reads like the value null.
  or_null-chain {ℓ} :
      {A : Type ℓ} (f : Json F → Option A)
      → f null ≡ none
      → (o : Option (Json F)) → f (or_null o) ≡ chain o f
  or_null-chain f e none = e
  or_null-chain f e (some v) = refl

  at_key-chain {ℓ} :
      {A : Type ℓ} (f : Json F → Option A)
      → f null ≡ none
      → (v : Json F) (key : String) → f (at_key v key) ≡ chain (get v key) f
  unfolding at_key
  at_key-chain f e v key = or_null-chain f e (get v key)

  pub at_key-u64 : (v : Json F) (key : String) → as_u64 (at_key v key) ≡ chain (get v key) as_u64
  at_key-u64 v key = at_key-chain as_u64 (unfold as_u64 in refl) v key

  pub at_key-str : (v : Json F) (key : String) → as_str (at_key v key) ≡ chain (get v key) as_str
  at_key-str v key = at_key-chain as_str (unfold as_str in refl) v key

  pub at_key-array :
      (v : Json F) (key : String) → as_array (at_key v key) ≡ chain (get v key) as_array
  at_key-array v key = at_key-chain as_array (unfold as_array in refl) v key

  layer-eq : (k : ℕ) (l : Json F) → loaded_layer (as_u32 k) l ≡ uploaded_layer k l
  unfolding loaded_layer uploaded_layer
  layer-eq k l =
      rw
        (
          at_key-u64 l "layer_id",
          at_key-str l "name",
          at_key-u64 l "neurons",
          at_key-array l "pc_shape",
        )
        refl

  layers-eq :
      (k : ℕ) (xs : Elements F)
      → layers_of (loaded_layer (as_u32 k)) xs ≡ layers_of (uploaded_layer k) xs
  unfolding layers_of
  layers-eq k stop = refl
  layers-eq k (item x xs) = ap₂ (λ a b. a ∷ b) (layer-eq k x) (layers-eq k xs)

  loaded-eq :
      (v : Json F) (xs : Elements F)
      → chain (get v "layers") as_array ≡ some xs
      → loaded v (some xs) ≡ ok (uploaded_index v)
  unfolding uploaded_index
  loaded-eq v xs e =
      rw
        (
          at_key-str v "model",
          at_key-u64 v "k_components",
          at_key-u64 v "total_neurons",
          at_key-u64 v "fft_bins",
          e,
          layers-eq (or_default (chain (get v "k_components") as_u64) 32) xs,
        )
        refl

  -- From a JSON value with an array of layers, empty or not, `load_gfef_index` makes the index that an
  -- upload of the value makes. A value with no layers, or layers that are no array, the former
  -- refuses, and the latter takes it as one with an empty array.
  pub loaded_index-uploaded_index :
      (v : Json F)
      → ((xs : Elements F) × (chain (get v "layers") as_array ≡ some xs)
          × (loaded_index v ≡ ok (uploaded_index v)))
        ⊎ ((chain (get v "layers") as_array ≡ none)
            × (loaded_index v ≡ err "Missing layers array")
            × ((uploaded_index v).layers ≡ []))
  unfolding loaded_index
  loaded_index-uploaded_index v = elim (Option-cases (chain (get v "layers") as_array)) [
    | inl e ↦ inr (e, rw (at_key-array v "layers", e) refl, unfold uploaded_index in rw e refl)
    | inr (xs, e) ↦ inl (xs, e, rw (at_key-array v "layers", e) (loaded-eq v xs e))
  ]
