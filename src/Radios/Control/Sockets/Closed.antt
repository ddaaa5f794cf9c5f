-- ===== src/Radios/Control/Sockets/Closed.antt =====
-- Whether `request` of `WpaSupplicantControl` in radios.py leaves a socket open.
use msys_hal.Prelude.{
  ℕ, String, concat, List, [], ◌∷◌, length, any, leb, not, ◌&&◌, ◌≡◌, refl, sym, ◌==◌, nat_eq,
}
use msys_hal.Errors.{Exception, Result, ok, err, hal, python, provider_error}
use mathlib.Core.Path.{subst}
use msys_hal.Json.{end}
use msys_hal.Action.{Keeps, Keeps-bind, Keeps-quiet, guard, gets_result}
use msys_hal.Linux.{entry_re}
use msys_hal.Radios.Lines.{utf8}
use msys_hal.Radios.Control.Sockets.{
  Sockets, converse, end_with, exchange_over, exchange, request, available, check_path, is_token,
  is_command, max_wpa_response,
}

-- What the calls on sockets do to the sockets that are open: `Clean` says that none of the client's
-- is, `Open d` that the one of descriptor `d` alone is.
pub record Tracks {S : Type 0} (k : Sockets S) (Clean : S → Type 0) (Open : ℕ → S → Type 0)
    : Type 0 where
  pub create_opens : (s : S) (d : ℕ) → Clean s → (k.create s).0 ≡ ok d → Open d (k.create s).1
  pub create_fails :
      (s : S) (e : Exception) → Clean s → (k.create s).0 ≡ err e → Clean (k.create s).1
  pub settimeout_keeps : (d : ℕ) (s : S) → Open d s → Open d (k.settimeout d s).1
  pub token_keeps : (d : ℕ) (s : S) → Open d s → Open d (k.token s).1
  pub bind_keeps : (d : ℕ) (a : String) (s : S) → Open d s → Open d (k.bind d a s).1
  pub connect_keeps : (d : ℕ) (a : String) (s : S) → Open d s → Open d (k.connect d a s).1
  pub send_keeps : (d : ℕ) (b : List ℕ) (s : S) → Open d s → Open d (k.send d b s).1
  pub recv_keeps : (d n : ℕ) (s : S) → Open d s → Open d (k.recv d n s).1
  pub close_cleans : (d : ℕ) (s : S) → Open d s → Clean (k.close d s).1

module _ {S : Type 0} (k : Sockets S) (replacing : List ℕ → String) {Clean : S → Type 0}
    {Open : ℕ → S → Type 0} (tracks : Tracks k Clean Open) where
  converse-Open :
      (d : ℕ) (interface command : String)
      → Keeps (Open d) (converse k replacing d interface command)
  unfolding converse
  converse-Open d interface command =
      Keeps-bind (k.settimeout d) _ (record { keeps = tracks.settimeout_keeps d })
        λ u1.
          Keeps-bind k.token _ (record { keeps = tracks.token_keeps d })
            λ token.
              Keeps-bind
                (guard (is_token token)
                  (provider_error "wpa_supplicant client token is invalid" end))
                _ (Keeps-quiet _)
                λ u2.
                  Keeps-bind (k.bind d (concat ("\0msys-hal-wpa-" ∷ token ∷ []))) _
                    (record { keeps = tracks.bind_keeps d _ })
                    λ u3.
                      Keeps-bind (k.connect d interface) _
                        (record { keeps = tracks.connect_keeps d interface })
                        λ u4.
                          Keeps-bind (k.send d (utf8 command)) _
                            (record { keeps = tracks.send_keeps d (utf8 command) })
                            λ sent.
                              Keeps-bind
                                (guard (sent == length (utf8 command))
                                  (python "OSError" "short datagram send"))
                                _ (Keeps-quiet _) λ u5. record { keeps = tracks.recv_keeps d _ }

  end_with-state :
      (r : Result (List ℕ)) (outcome : Result (Unit {0})) (s : S)
      → (end_with k replacing r (outcome, s)).1 ≡ s
  unfolding end_with
  end_with-state r (ok u) s = refl
  end_with-state r (err (hal e)) s = refl
  end_with-state r (err (python name text)) s = refl

  exchange_over-Clean :
      (interface command : String) (made : Result ℕ) (s : S)
      → ((d : ℕ) → made ≡ ok d → Open d s)
      → ((e : Exception) → made ≡ err e → Clean s)
      → Clean (exchange_over k replacing interface command made s).1
  unfolding exchange_over
  exchange_over-Clean interface command (err e) s opened failed = failed e refl
  exchange_over-Clean interface command (ok d) s opened failed =
      let s' = (converse k replacing d interface command s).1 in
      let cleaned =
        tracks.close_cleans d s' ((converse-Open d interface command).keeps s (opened d refl)) in
      subst Clean (sym (end_with-state _ (k.close d s').0 (k.close d s').1)) cleaned

  exchange-Clean :
      (interface command : String) → Keeps Clean (exchange k replacing interface command)
  unfolding exchange
  exchange-Clean interface command = record {
    keeps = λ s h.
        exchange_over-Clean interface command (k.create s).0 (k.create s).1
          (λ d q. tracks.create_opens s d h q) λ e q. tracks.create_fails s e h q;
  }

  -- Whichever call on the socket fails, `request` leaves none open.
  pub request-Clean :
      (interface command : String) → Keeps Clean (request k replacing interface command)
  unfolding request check_path
  request-Clean interface command =
      Keeps-bind (guard (entry_re interface) _) _ (Keeps-quiet _) λ u1.
        Keeps-bind (guard (is_command command) _) _ (Keeps-quiet _) λ u2.
          Keeps-bind (gets_result (available k replacing interface)) _ (Keeps-quiet _) λ ready.
            Keeps-bind (guard ready _) _ (Keeps-quiet _) λ u3.
              Keeps-bind (exchange k replacing interface command) _
                (exchange-Clean interface command)
                λ response.
                  Keeps-bind
                    (guard
                      (leb (length response) max_wpa_response && not (any (λ b. b == 0) response))
                      _)
                    _ (Keeps-quiet _) λ u4. Keeps-quiet _
