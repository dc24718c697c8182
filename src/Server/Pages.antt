-- ===== src/Server/Pages.antt =====
-- The pages of `handle_http_request`, src/bin/control_plane_server.rs, that are no answers of commands.
-- The predictor of the GFEF module, which is not part of the repository, is the parameter `Predictor`.
use cyan_flame_control_plane.Prelude.{
  ℕ, true, false, String, List, [], ◌∷◌, length, ltb, if◌then◌else◌,
}
use cyan_flame_control_plane.Server.Json.{
  Json, bool, float, str, formatted, array, elements, json, nat,
}
use cyan_flame_control_plane.Prelude.Floats.{Floats}
use cyan_flame_control_plane.Server.Index.{GfefIndex}

pub record PredictorStats (F : Type 0) : Type 0 where
  pub models_loaded : ℕ
  pub total_neurons : ℕ
  pub total_layers : ℕ
  pub target_sparsity : F

-- `ActivationPredictor` with its two calls, and the operations on floats of 32 bits that its
-- statistics need.
pub record Predictor (F P : Type 0) : Type 0 where
  pub read_stats : P → PredictorStats F
  pub register_index : P → GfefIndex → P
  pub singles : Floats F
  -- `as u64` of a float.
  pub truncate : F → ℕ

module _ {F : Type 0} where
  abbrev texts : List String → List (Json F)
  texts [] = []
  texts (s ∷ ss) = str s ∷ texts ss

  unfoldable pub socket_page : Json F
  socket_page = json (
      ("success", bool true)
      ∷ ("message", str "WebSocket endpoint - use WebSocket protocol to connect")
      ∷ (
        "data",
        json (
            ("endpoint", str "/ws")
            ∷ ("protocol", str "wss")
            ∷ ("url", str "wss://vxlan-control-plane.onrender.com/ws")
            ∷ ("usage", str "Connect with WebSocket client, send JSON commands")
            ∷ ("example_command", json (("cmd", str "Health") ∷ []))
            ∷ (
              "supported_commands",
              array (
                  elements (
                    texts (
                      "Health" ∷ "Stats" ∷ "GetCascadeStats" ∷ "GetMemoryStats"
                      ∷ "GetBandwidthStats" ∷ "CacheStats" ∷ "CacheGet" ∷ "CacheSet" ∷ "CacheDelete"
                      ∷ "CacheIncr" ∷ "AllocateMemory" ∷ "FreeMemory" ∷ "OptimizeBandwidth"
                      ∷ "Lookup" ∷ "InsertRoute" ∷ "DeleteRoute" ∷ []))),
            )
            ∷ []),
      )
      ∷ [])

  abbrev percent : Floats F → F → Json F
  percent fl x = formatted "{:.1}%" (float (fl.mul x (fl.of_ℕ 100)))

  abbrev share : Floats F → F → F
  share fl sparsity = fl.sub (fl.of_ℕ 1) sparsity

  unfoldable pub index_page : Floats F → PredictorStats F → Json F
  index_page fl st = json (
      ("success", bool true)
      ∷ ("service", str "NULL SPACE AI Control Plane")
      ∷ ("version", str "1.0.0")
      ∷ (
        "triple_ip_lock_status",
        json (
            ("lock1_gfef_index", str (if ltb 0 st.models_loaded then "SECURED" else "NOT_LOADED"))
            ∷ ("lock2_calibration", str "ROTATING")
            ∷ ("lock3_prediction_service", str "ACTIVE")
            ∷ []),
      )
      ∷ (
        "gfef_stats",
        json (
            ("models_loaded", nat st.models_loaded)
            ∷ ("total_neurons", nat st.total_neurons)
            ∷ ("total_layers", nat st.total_layers)
            ∷ ("target_sparsity", float st.target_sparsity)
            ∷ ("sparsity_percentage", percent fl st.target_sparsity)
            ∷ ("active_neurons_per_inference", percent fl (share fl st.target_sparsity))
            ∷ []),
      )
      ∷ (
        "endpoints",
        json (
            ("predict", str "POST /v1/predict")
            ∷ ("upload_index", str "POST /v1/index/upload")
            ∷ ("stats", str "GET /v1/indices/stats")
            ∷ []),
      )
      ∷ [])

  unfoldable pub no_index_page : Json F
  no_index_page = json (
      ("success", bool false)
      ∷ ("error", str "NO_INDEX_LOADED")
      ∷ ("message", str "No GFEF index loaded. Upload index via POST /v1/index/upload first.")
      ∷ ("triple_ip_lock_status", str "INACTIVE")
      ∷ [])

  unfoldable pub ready_page : PredictorStats F → Json F
  ready_page st = json (
      ("success", bool true)
      ∷ ("message", str "GFEF Prediction Service Ready")
      ∷ ("triple_ip_lock_status", str "ACTIVE")
      ∷ ("models_loaded", nat st.models_loaded)
      ∷ ("total_neurons", nat st.total_neurons)
      ∷ (
        "usage",
        json (
            ("method", str "POST")
            ∷ (
              "body",
              json (
                  ("session_token", str "your_auth_token")
                  ∷ ("customer_id", str "uuid")
                  ∷ ("model_id", str "Qwen3-MoE-Coder")
                  ∷ ("layer_id", nat 0)
                  ∷ ("input_embedding_hash", str "hash_of_input")
                  ∷ []),
            )
            ∷ []),
      )
      ∷ [])

  unfoldable pub prediction_page : Floats F → (F → ℕ) → PredictorStats F → String → Json F
  prediction_page fl truncate st request_id = json (
      ("success", bool true)
      ∷ ("service", str "GFEF Activation Prediction")
      ∷ ("triple_ip_lock_status", str "ACTIVE")
      ∷ (
        "prediction",
        json (
            ("request_id", str request_id)
            ∷ (
              "active_neurons_count",
              nat (truncate (fl.mul (share fl st.target_sparsity) (fl.of_ℕ st.total_neurons))),
            )
            ∷ ("sparsity_achieved", percent fl st.target_sparsity)
            ∷ ("weight_reduction", str "19.6×")
            ∷ ("message", str "5% of neurons predicted to activate")
            ∷ []),
      )
      ∷ [])

  unfoldable pub empty_page : Json F
  empty_page = json (
      ("success", bool false)
      ∷ ("error", str "EMPTY_BODY")
      ∷ ("message", str "Request body is empty. Send GFEF index JSON.")
      ∷ [])

  unfoldable pub unreadable_page : String → Json F
  unreadable_page e = json (
      ("success", bool false)
      ∷ ("error", str "INVALID_JSON")
      ∷ ("message", formatted "Failed to parse index JSON: {}" (str e))
      ∷ [])

  unfoldable pub uploaded_page : Floats F → PredictorStats F → GfefIndex → String → Json F
  uploaded_page fl st index index_id = json (
      ("success", bool true)
      ∷ ("message", str "🔐 GFEF Index uploaded and secured on Control Plane")
      ∷ ("index_id", str index_id)
      ∷ ("model_id", str index.model_id)
      ∷ ("total_neurons", nat index.total_neurons)
      ∷ ("num_layers", nat (length index.layers))
      ∷ (
        "triple_ip_lock_status",
        json (
            ("lock1_gfef_index", str "SECURED")
            ∷ ("lock2_calibration", str "ROTATING")
            ∷ ("lock3_prediction_service", str "ACTIVE")
            ∷ []),
      )
      ∷ (
        "predictor_stats",
        json (
            ("models_loaded", nat st.models_loaded)
            ∷ ("total_neurons", nat st.total_neurons)
            ∷ ("total_layers", nat st.total_layers)
            ∷ ("target_sparsity", percent fl st.target_sparsity)
            ∷ []),
      )
      ∷ [])
