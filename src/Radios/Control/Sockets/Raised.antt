-- ===== src/Radios/Control/Sockets/Raised.antt =====
-- What `request` of `WpaSupplicantControl` in radios.py raises.
use msys_hal.Prelude.{
  ℕ, String, concat, List, [], ◌∷◌, length, any, leb, not, ◌&&◌, Bool, true, false, ◌≡◌, refl, ◌==◌,
  nat_eq, if◌then◌else◌,
}
use mathlib.Core.Path.{subst}
use msys_hal.Json.{end}
use msys_hal.Errors.{Exception, Result, ok, err, hal, python, provider_error}
use msys_hal.Action.{Action, Raises, Raises-bind, Raises-quiet, Raises-guard, guard, gets_result}
use msys_hal.Linux.{entry_re}
use msys_hal.Radios.Lines.{utf8}
use msys_hal.Radios.Control.Sockets.{
  Sockets, converse, end_with, converted, convert, exchange_over, exchange, request, available,
  check_path, is_token, is_command, is_os_error, max_wpa_response,
}
use msys_hal.Radios.Network.Requests.{is_degrading}

-- An `OSError`.
abbrev pub is_os : Exception → Bool
is_os (hal e) = false
is_os (python name text) = is_os_error name

abbrev pub IsOs : Exception → Type 0
IsOs e = is_os e ≡ true

-- The calls on sockets raise nothing else.
pub record OnlyOs {S : Type 0} (k : Sockets S) : Type 0 where
  pub create_os : Raises IsOs k.create
  pub settimeout_os : (d : ℕ) → Raises IsOs (k.settimeout d)
  pub token_os : Raises IsOs k.token
  pub bind_os : (d : ℕ) (a : String) → Raises IsOs (k.bind d a)
  pub connect_os : (d : ℕ) (a : String) → Raises IsOs (k.connect d a)
  pub send_os : (d : ℕ) (b : List ℕ) → Raises IsOs (k.send d b)
  pub recv_os : (d n : ℕ) → Raises IsOs (k.recv d n)
  pub close_os : (d : ℕ) → Raises IsOs (k.close d)

-- A `ProviderError` or an `UnavailableError`.
abbrev pub IsDegrading : Exception → Type 0
IsDegrading e = is_degrading e ≡ true

module _ {S : Type 0} (k : Sockets S) (replacing : List ℕ → String) (only : OnlyOs k) where
  -- What `except` makes an exception of.
  Converts : String → Exception → Type 0
  Converts interface e = IsDegrading (convert interface e)

  os-Converts : (interface : String) (e : Exception) → IsOs e → Converts interface e
  unfolding Converts convert is_degrading
  os-Converts interface (hal e) h = absurd cc
  os-Converts interface (python name text) h = rw (h, if◌then◌else◌) refl

  calls :
      {A : Type 0} {m : Action S A} (interface : String)
      → Raises IsOs m
      → Raises (Converts interface) m
  calls interface h = record { raises = λ s e q. os-Converts interface e (h.raises s e q) }

  converse-Raises :
      (d : ℕ) (interface command : String)
      → Raises (Converts interface) (converse k replacing d interface command)
  unfolding converse Converts convert is_degrading
  converse-Raises d interface command =
      Raises-bind (k.settimeout d) _ (calls interface (only.settimeout_os d)) λ u1.
        Raises-bind k.token _ (calls interface only.token_os) λ token.
          Raises-bind
            (guard (is_token token) (provider_error "wpa_supplicant client token is invalid" end)) _
            (Raises-guard (is_token token) _ λ q. refl)
            λ u2.
              Raises-bind (k.bind d (concat ("\0msys-hal-wpa-" ∷ token ∷ []))) _
                (calls interface (only.bind_os d _))
                λ u3.
                  Raises-bind (k.connect d interface) _
                    (calls interface (only.connect_os d interface))
                    λ u4.
                      Raises-bind (k.send d (utf8 command)) _
                        (calls interface (only.send_os d (utf8 command)))
                        λ sent.
                          Raises-bind
                            (guard (sent == length (utf8 command))
                              (python "OSError" "short datagram send"))
                            _ (Raises-guard (sent == length (utf8 command)) _ λ q. refl)
                            λ u5. calls interface (only.recv_os d _)

  end_with-Raises :
      (r : Result (List ℕ)) (outcome : Result (Unit {0})) (s : S)
      → ((e : Exception) → r ≡ err e → IsDegrading e)
      → ((e : Exception) → outcome ≡ err e → IsOs e)
      → (e : Exception) → (end_with k replacing r (outcome, s)).0 ≡ err e
      → IsDegrading e
  unfolding end_with
  end_with-Raises r (ok u) s h close e q = h e q
  end_with-Raises r (err (hal x)) s h close e q = absurd (let l = close (hal x) refl in cc)
  end_with-Raises r (err (python name text)) s h close e q =
      h e (rw (close (python name text) refl, if◌then◌else◌) at q)

  converted-Raises :
      (interface : String) (r : Result (List ℕ))
      → ((e : Exception) → r ≡ err e → Converts interface e)
      → (e : Exception) → converted k replacing interface r ≡ err e
      → IsDegrading e
  unfolding converted Converts
  converted-Raises interface (ok b) h e q = absurd cc
  converted-Raises interface (err x) h e q =
      let same : convert interface x ≡ e = cc in subst IsDegrading same (h x refl)

  exchange_over-Raises :
      (interface command : String) (made : Result ℕ)
      → ((e : Exception) → made ≡ err e → IsOs e)
      → Raises IsDegrading (exchange_over k replacing interface command made)
  unfolding exchange_over Converts
  exchange_over-Raises interface command (err x) h = record {
    raises = λ s e q.
        let same : convert interface x ≡ e = cc in
        subst IsDegrading same (os-Converts interface x (h x refl));
  }
  exchange_over-Raises interface command (ok d) h = record {
    raises = λ s e q.
        let c = converse k replacing d interface command s in
        end_with-Raises (converted k replacing interface c.0) (k.close d c.1).0 (k.close d c.1).1
          (converted-Raises interface c.0 ((converse-Raises d interface command).raises s))
          ((only.close_os d).raises c.1) e q;
  }

  exchange-Raises :
      (interface command : String) → Raises IsDegrading (exchange k replacing interface command)
  unfolding exchange
  exchange-Raises interface command = record {
    raises = λ s e q.
        (exchange_over-Raises interface command (k.create s).0 (only.create_os.raises s)).raises
          (k.create s).1 e q;
  }

  -- If the calls on sockets raise nothing but `OSError`, a valid request to a valid interface raises
  -- nothing but `ProviderError` and `UnavailableError`.
  pub request-Raises :
      (interface command : String)
      → entry_re interface ≡ true
      → is_command command ≡ true
      → Raises IsDegrading (request k replacing interface command)
  unfolding request check_path available is_degrading
  request-Raises interface command valid one_line =
      Raises-bind (guard (entry_re interface) _) _
        (Raises-guard (entry_re interface) _ λ q. absurd cc)
        λ u1.
          Raises-bind (guard (is_command command) _) _
            (Raises-guard (is_command command) _ λ q. absurd cc)
            λ u2.
              Raises-bind (gets_result (available k replacing interface)) _
                (Raises-quiet (available k replacing interface)
                  λ s e q. absurd (let l = rw (valid, if◌then◌else◌) at q in cc))
                λ ready. Raises-bind (guard ready _) _ (Raises-guard ready _ λ q. refl) λ u3.
                  Raises-bind (exchange k replacing interface command) _
                    (exchange-Raises interface command)
                    λ response.
                      Raises-bind
                        (guard
                          (leb (length response) max_wpa_response
                            && not (any (λ b. b == 0) response))
                          _)
                        _ (Raises-guard _ _ λ q. refl) λ u4. Raises-quiet _ λ s e q. absurd cc
