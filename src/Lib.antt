-- ===== src/Lib.antt =====
-- The verification library of the CYAN FLAME control plane server.
--
-- The server is a set of gRPC services over shared tables. An agent sends its API key with each
-- call; the interceptor and the key manager decide whether the key is good, which tier it has and
-- whether its rate limit is used up. The allocation service keeps who holds how many terabytes.
-- The certificate service issues, renews and revokes client certificates through the certificate
-- manager, and answers status, CRL and OCSP queries. The Galois crate is the exact arithmetic
-- below the computing engines. A second server takes commands over HTTP, VXLAN packets and
-- WebSockets and runs them on a cache with simulated compression and on a routing engine.
--
-- Which file models what (paths from the repository's root):
--   Prelude         shared names; tests on numbers, lists, results of Rust calls, 64-bit words,
--                   signed integers, hash maps with text keys, UTF-8 bytes
--   Galois          crates/symmetrix-galois/src/lib.rs: Element (GaloisElement and its operators),
--                   Inverse (inverse, Div), Pow (pow), Matrix (GaloisEngine, vector operations),
--                   Crt (CRTDecomposition)
--   Allocation      src/grpc/allocation.rs: the four handlers of AllocationServiceImpl; and
--                   Allocation/Locks, the steps in which allocate_memory and free_memory take and
--                   give back their two locks
--   Auth            src/grpc/auth.rs: Tier (TierConfig), Manager (AuthManager), Interceptor
--                   (extract_api_key, AuthInterceptor::call)
--   Certificate     src/grpc/certificate.rs: CertificateManager and its entries; and
--                   src/grpc/certificate_service.rs: Service (request, renew, revoke), Query
--                   (status, CRL), Ocsp (the OCSP responder and its DER builders)
--   Cache           src/uao_qtcam_cache.rs: UaoQtcamCache, with incr in Cache/Counter; Cache/Codec what
--                   the compression keeps, Cache/Eviction the space that a new value needs
--   Gpu             src/grpc/gpu_detection.rs: the types and their numbers, Target (TargetGpuType and
--                   the names), Specifications and Catalogue (GpuSpecifications), Tier
--                   (GpuTierConfig, AmplificationTargets), Manager (GpuDetectionManager)
--   Server          src/bin/control_plane_server.rs: Command (the commands, the response, the state),
--                   Process (process_command), Answers and Branches (what its branches answer),
--                   Calibration (GetCalibrationMatrix), Predict (PredictActivation), Json (the
--                   payload), Http (handle_http_request, load_gfef_index) with Request (path and
--                   body), Index (the GFEF index) and Pages, Sockets (handle_vxlan_packet,
--                   handle_websocket); Engines has the calls of src/qagml_integration.rs,
--                   src/qanban_integration.rs and src/uao_qtcam_integration.rs
--   Tcam            uao-qtcam/src: Prefix (phase1/mod.rs), Field (phase1/galois_field.rs), Ahgf
--                   (phase1/algebraic_heterodyning.rs, phase1/frobenius_compression.rs), Qagfhg
--                   (phase2/qagfhg_engine.rs), Scrtt (phase3/scrtt_engine.rs) and the engine over
--                   them (unified/tcam_engine.rs); Longest is the search that two of them share
-- The modules below these hold the proofs, named for what they prove, and Tests holds runs of
-- the code and the properties at concrete inputs.
--
-- How the code is modelled. A table behind a lock is a field of a record, and a handler is a
-- function from the record to the new record and the response. A handler that holds its lock to
-- its end is one step by that lock; `issue_certificate`, which takes two locks one after the other,
-- is taken as one step as well. Each reading of the clock and each random identifier is an
-- argument. A HashMap is an association list whose order stands for the order of its iteration;
-- a text is its UTF-8, a vector is a list. A Rust result is an `Outcome`: a value, an error value
-- or a panic. Numbers are natural numbers, with the wrapping of the release profile written out
-- where the code adds or multiplies in 64 or 32 bits. SHA-256, MD5, hex, base64, the texts of
-- chrono and rcgen are parameters: `hash_key` in Auth and the record `External` in Certificate; the
-- order of the floating-point scores in Cache is a parameter too. In Server and Gpu the floats
-- (Prelude/Floats), to_lowercase and to_uppercase are parameters, and in Server what the tokio
-- runtime lets a call do, the parser of JSON, the accept key of a WebSocket and the predictor of
-- the GFEF module, which the code uses and the repository lacks. A text that the server formats is
-- the list of its parts; a request is the list of its code points.
-- The lines that only write to the log are left out; the slices of identifiers in them are taken
-- from UUIDs, serial numbers and hashes, which are long enough.
--
-- Loops. The Euclidean loop and the square-and-multiply loop recurse on the fall of a number
-- (`Acc`), so no fuel is needed; all other loops recurse on a list or on the rounds left. The DER
-- reader in Certificate/Ocsp/Der, a specification, takes fuel for the number of elements. The
-- `while` loop of Server/Predict takes fuel, and 102 times the number of 64-bit states is enough,
-- since the generator visits every state; the loop of the inverse in Tcam/Field takes fuel, and no
-- fuel is enough for some elements.
--
-- Not modelled: the floating-point engines (qagml, qanban, the quantum states and the second
-- versions of uao-qtcam), calibration and amplification factors, start-up, sockets and the read
-- loop of the HTTP connections, TLS, telemetry streams, command line tools, the generated protocol
-- code, the kernel module, and, of the modelled files, the parameters that are handed to rcgen, the
-- fixed latencies of a routing response and the rates in the statistics of the cache.
pub mod Prelude
pub mod Galois
pub mod Allocation
pub mod Auth
pub mod Certificate
pub mod Cache
pub mod Gpu
pub mod Server
pub mod Tcam
