-- ===== src/Server/Process/Agreement.antt =====
-- The counters of hits and misses behind each branch of `process_command`.
use cyan_flame_control_plane.Prelude.{
  ℕ, ◌≡◌, refl, ap, ◌∙◌, sym, Bool, true, false, String, Option, none, some, List, Outcome, ok, err,
  panic, add64,
}
use cyan_flame_control_plane.Prelude.Int.{ℤ}
use cyan_flame_control_plane.Cache.{Cache as UaoQtcamCache}
use cyan_flame_control_plane.Cache.Tally.{KeepsTally, Tallies}
use cyan_flame_control_plane.Tcam.{TcamEngine}
use cyan_flame_control_plane.Server.Engines.{SyncError, ControlPlaneLookupResult}
use cyan_flame_control_plane.Server.Command.{ServerInternals, Answer}
use cyan_flame_control_plane.Server.Branches.{
  Branch, set_branch, get_branch, delete_branch, incr_branch, lookup_branch, insert_branch,
  delete_route_branch, upload_branch, with_cache,
}

module _ {F : Type 0} where
  -- The server and its cache count the same hits and misses.
  pub record Agrees (s : ServerInternals F) : Type 0 where
    pub hits : s.stats.cache_hits ≡ s.cache.stats.hits
    pub misses : s.stats.cache_misses ≡ s.cache.stats.misses

  -- The counters agree behind a branch, which counts no command, request or packet itself.
  pub record Sound (s : ServerInternals F) (b : Branch F) : Type 0 where
    pub agrees : Agrees b.0
    pub uncounted : b.0.stats.commands_processed ≡ s.stats.commands_processed
    pub requests : b.0.stats.http_requests ≡ s.stats.http_requests
    pub packets : b.0.stats.vxlan_packets ≡ s.stats.vxlan_packets

  pub kept :
      (s : ServerInternals F) (c : UaoQtcamCache)
      → KeepsTally s.cache c
      → Agrees s
      → Agrees (with_cache s c)
  kept s c (h, m) a = record { hits = a.hits ∙ sym h; misses = a.misses ∙ sym m }

  pub kept-Sound :
      (s : ServerInternals F) (c : UaoQtcamCache) (o : Outcome String (Answer F))
      → KeepsTally s.cache c
      → Agrees s
      → Sound s (with_cache s c, o)
  kept-Sound s c o k a = record {
    agrees = kept s c k a;
    uncounted = refl;
    requests = refl;
    packets = refl;
  }

  pub set-Sound :
      (s : ServerInternals F) (key : String) (made : UaoQtcamCache × Outcome String (Unit {0}))
      → KeepsTally s.cache made.0
      → Agrees s
      → Sound s (set_branch s key made)
  unfolding set_branch
  set-Sound s key (c, ok x) k a = kept-Sound s c _ k a
  set-Sound s key (c, err x) k a = kept-Sound s c _ k a
  set-Sound s key (c, panic) k a = kept-Sound s c _ k a

  pub upload-Sound :
      (s : ServerInternals F) (model data_ : String)
      (made : UaoQtcamCache × Outcome String (Unit {0}))
      → KeepsTally s.cache made.0
      → Agrees s
      → Sound s (upload_branch s model data_ made)
  unfolding upload_branch
  upload-Sound s model data_ (c, ok x) k a = kept-Sound s c _ k a
  upload-Sound s model data_ (c, err x) k a = kept-Sound s c _ k a
  upload-Sound s model data_ (c, panic) k a = kept-Sound s c _ k a

  pub delete-Sound :
      (s : ServerInternals F) (key : String) (made : UaoQtcamCache × Bool)
      → KeepsTally s.cache made.0
      → Agrees s
      → Sound s (delete_branch s key made)
  unfolding delete_branch
  delete-Sound s key (c, true) k a = kept-Sound s c _ k a
  delete-Sound s key (c, false) k a = kept-Sound s c _ k a

  pub incr-Sound :
      (s : ServerInternals F) (key : String) (made : UaoQtcamCache × Outcome String ℤ)
      → KeepsTally s.cache made.0
      → Agrees s
      → Sound s (incr_branch s key made)
  unfolding incr_branch
  incr-Sound s key (c, ok x) k a = kept-Sound s c _ k a
  incr-Sound s key (c, err x) k a = kept-Sound s c _ k a
  incr-Sound s key (c, panic) k a = kept-Sound s c _ k a

  pub get-Sound :
      (s : ServerInternals F) (key : String) (made : UaoQtcamCache × Option (List ℕ))
      → Tallies s.cache made.1 made.0
      → Agrees s
      → Sound s (get_branch s key made)
  unfolding get_branch
  get-Sound s key (c, none) (h, m) a = record {
    agrees = record { hits = a.hits ∙ sym h; misses = ap (λ n. add64 n 1) a.misses ∙ sym m };
    uncounted = refl;
    requests = refl;
    packets = refl;
  }
  get-Sound s key (c, some bs) (h, m) a = record {
    agrees = record { hits = ap (λ n. add64 n 1) a.hits ∙ sym h; misses = a.misses ∙ sym m };
    uncounted = refl;
    requests = refl;
    packets = refl;
  }

  pub rerouted-Sound :
      (s : ServerInternals F) (e : TcamEngine) (o : Outcome String (Answer F))
      → Agrees s
      → Sound s (record s { uao_qtcam = e }, o)
  rerouted-Sound s e o a = record {
    agrees = record { hits = a.hits; misses = a.misses };
    uncounted = refl;
    requests = refl;
    packets = refl;
  }

  pub lookup-Sound :
      (s : ServerInternals F) (key : String)
      → (made : TcamEngine × Outcome SyncError (Option ControlPlaneLookupResult)) → Agrees s
      → Sound s (lookup_branch s key made)
  unfolding lookup_branch
  lookup-Sound s key (e, ok x) a = rerouted-Sound s e _ a
  lookup-Sound s key (e, err x) a = rerouted-Sound s e _ a
  lookup-Sound s key (e, panic) a = rerouted-Sound s e _ a

  pub insert-Sound :
      (s : ServerInternals F) (key : String) (priority : ℕ)
      → (made : TcamEngine × Outcome SyncError (Unit {0})) → Agrees s
      → Sound s (insert_branch s key priority made)
  unfolding insert_branch
  insert-Sound s key priority (e, ok x) a = rerouted-Sound s e _ a
  insert-Sound s key priority (e, err x) a = rerouted-Sound s e _ a
  insert-Sound s key priority (e, panic) a = rerouted-Sound s e _ a

  pub delete_route-Sound :
      (s : ServerInternals F) (key : String) (made : TcamEngine × Outcome SyncError (Unit {0}))
      → Agrees s
      → Sound s (delete_route_branch s key made)
  unfolding delete_route_branch
  delete_route-Sound s key (e, ok x) a = rerouted-Sound s e _ a
  delete_route-Sound s key (e, err x) a = rerouted-Sound s e _ a
  delete_route-Sound s key (e, panic) a = rerouted-Sound s e _ a

  pub same-Sound :
      (s : ServerInternals F) (o : Outcome String (Answer F)) → Agrees s → Sound s (s, o)
  same-Sound s o a = record { agrees = a; uncounted = refl; requests = refl; packets = refl }
