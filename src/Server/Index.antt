-- ===== src/Server/Index.antt =====
-- The index that src/bin/control_plane_server.rs makes of a JSON value, in `load_gfef_index` and in
-- the branch of `handle_http_request` for `/v1/index/upload`. A record has the fields that the code
-- gives to the type of the same name.
pub mod Agreement
use cyan_flame_control_plane.Prelude.{
  ℕ, ◌%◌, ◌^◌, Bool, true, false, String, str_eq, Option, none, some, List, [], ◌∷◌, Outcome, ok,
  err, if◌then◌else◌,
}
use cyan_flame_control_plane.Prelude.Int.{ℤ, pos, negsuc}
use cyan_flame_control_plane.Server.Json.{
  Json, null, bool, int, float, str, lossy, formatted, array, object, Elements, stop, item, Members,
  end, member,
}

pub record LayerIndex : Type 0 where
  pub layer_id : ℕ
  pub layer_name : String
  pub num_neurons : ℕ
  pub input_dim : ℕ
  pub k_components : ℕ

pub record IndexConfig : Type 0 where
  pub k_components : ℕ
  pub fft_bins : ℕ

-- The identifiers, the time and the sparsity of 0.95 are the same for all indices.
pub record GfefIndex : Type 0 where
  pub model_id : String
  pub model_name : String
  pub layers : List LayerIndex
  pub total_neurons : ℕ
  pub config : IndexConfig

abbrev pub chain {ℓ ℓ'} : {A : Type ℓ} {B : Type ℓ'} → Option A → (A → Option B) → Option B
chain none f = none
chain (some a) f = f a

abbrev or_default {ℓ} : {A : Type ℓ} → Option A → A → A
or_default none d = d
or_default (some a) d = a

abbrev as_u32 : ℕ → ℕ
as_u32 n = n % 2 ^ 32

module _ {F : Type 0} where
  unfoldable pub find_member : String → Members F → Option (Json F)
  find_member key end = none
  find_member key (member k v rest) =
      let later = find_member key rest in if str_eq k key then some v else later

  -- `get`, with a text as the index.
  unfoldable pub get : Json F → String → Option (Json F)
  unfolding find_member
  get (object fields) key = find_member key fields
  get null key = none
  get (bool b) key = none
  get (int n) key = none
  get (float x) key = none
  get (str s) key = none
  get (lossy s) key = none
  get (formatted s x) key = none
  get (array xs) key = none

  abbrev or_null : Option (Json F) → Json F
  or_null none = null
  or_null (some v) = v

  -- `value[key]`, which is null where the key is missing.
  unfoldable pub at_key : Json F → String → Json F
  unfolding get
  at_key v key = or_null (get v key)

  unfoldable pub as_u64 : Json F → Option ℕ
  as_u64 (int (pos n)) = some n
  as_u64 (int (negsuc n)) = none
  as_u64 null = none
  as_u64 (bool b) = none
  as_u64 (float x) = none
  as_u64 (str s) = none
  as_u64 (lossy s) = none
  as_u64 (formatted s x) = none
  as_u64 (array xs) = none
  as_u64 (object fields) = none

  unfoldable pub as_str : Json F → Option String
  as_str (str s) = some s
  as_str null = none
  as_str (bool b) = none
  as_str (int n) = none
  as_str (float x) = none
  as_str (lossy s) = none
  as_str (formatted s x) = none
  as_str (array xs) = none
  as_str (object fields) = none

  unfoldable pub as_array : Json F → Option (Elements F)
  as_array (array xs) = some xs
  as_array null = none
  as_array (bool b) = none
  as_array (int n) = none
  as_array (float x) = none
  as_array (str s) = none
  as_array (lossy s) = none
  as_array (formatted s x) = none
  as_array (object fields) = none

  unfoldable pub first_element : Elements F → Option (Json F)
  first_element stop = none
  first_element (item x xs) = some x

  -- The layer of an element, as the upload makes it.
  unfoldable pub uploaded_layer : ℕ → Json F → LayerIndex
  unfolding get as_u64 as_str as_array first_element
  uploaded_layer k l = record {
    layer_id = as_u32 (or_default (chain (get l "layer_id") as_u64) 0);
    layer_name = or_default (chain (get l "name") as_str) "";
    num_neurons = as_u32 (or_default (chain (get l "neurons") as_u64) 0);
    input_dim =
        as_u32
          (or_default (chain (chain (chain (get l "pc_shape") as_array) first_element) as_u64) 0);
    k_components = as_u32 k;
  }

  -- The layer of an element, as `load_gfef_index` makes it.
  unfoldable pub loaded_layer : ℕ → Json F → LayerIndex
  unfolding at_key as_u64 as_str as_array first_element
  loaded_layer k l = record {
    layer_id = as_u32 (or_default (as_u64 (at_key l "layer_id")) 0);
    layer_name = or_default (as_str (at_key l "name")) "";
    num_neurons = as_u32 (or_default (as_u64 (at_key l "neurons")) 0);
    input_dim =
        as_u32 (or_default (chain (chain (as_array (at_key l "pc_shape")) first_element) as_u64) 0);
    k_components = k;
  }

  unfoldable pub layers_of : (Json F → LayerIndex) → Elements F → List LayerIndex
  layers_of layer stop = []
  layers_of layer (item x xs) = layer x ∷ layers_of layer xs

  abbrev uploaded_layers : ℕ → Option (Elements F) → List LayerIndex
  uploaded_layers k none = []
  uploaded_layers k (some xs) = layers_of (uploaded_layer k) xs

  unfoldable pub uploaded_index : Json F → GfefIndex
  unfolding uploaded_layer layers_of
  uploaded_index v =
      let model_name = or_default (chain (get v "model") as_str) "unknown" in
      let k = or_default (chain (get v "k_components") as_u64) 32 in
      record {
        model_id = model_name;
        model_name = model_name;
        layers = uploaded_layers k (chain (get v "layers") as_array);
        total_neurons = or_default (chain (get v "total_neurons") as_u64) 0;
        config = record {
          k_components = as_u32 k;
          fft_bins = as_u32 (or_default (chain (get v "fft_bins") as_u64) 16);
        };
      }

  abbrev loaded : Json F → Option (Elements F) → Outcome String GfefIndex
  loaded v none = err "Missing layers array"
  loaded v (some xs) =
      let model_name = or_default (as_str (at_key v "model")) "unknown" in
      let k = as_u32 (or_default (as_u64 (at_key v "k_components")) 32) in
      ok (record {
        model_id = model_name;
        model_name = model_name;
        layers = layers_of (loaded_layer k) xs;
        total_neurons = or_default (as_u64 (at_key v "total_neurons")) 0;
        config = record {
          k_components = k;
          fft_bins = as_u32 (or_default (as_u64 (at_key v "fft_bins")) 16);
        };
      })

  unfoldable pub loaded_index : Json F → Outcome String GfefIndex
  unfolding loaded_layer layers_of
  loaded_index v = loaded v (as_array (at_key v "layers"))
