-- ===== src/TcpConnection/Reading/Served.antt =====
-- What comes out of the reads of a connection of ae/tcp_connection.cpp.
use ae_proxy.Base.{
  ℕ, zero, suc, ◌≡◌, ◌≤◌, arith, refl, ap, sym, ◌∙◌, inl, inr, Bool, true, List, [], ◌∷◌, ◌++◌,
  Option, none, some, ℤ, length, take, if◌then◌else◌, All, Option-cases, append-nil,
}
use mathlib.Core.Option
use mathlib.Core.Option.{bind}
use ae_proxy.ListBuffer.{ListBuffer, list_buffer}
use ae_proxy.Packet.{Packet}
use ae_proxy.GlobalConfig.{GlobalConfig}
use ae_proxy.GlobalConfig.Receiving.{receive, drain}
use ae_proxy.TcpConnection.{TcpConnection, calls_message, on_mesage_receive}
use ae_proxy.TcpConnection.Reading.{
  Reader, resize, resize_data, Copies, read_event, messages, callback, serve, answered,
}

pub length-resize : (n : ℕ) (text : List ℕ) → length (resize n text) ≡ n
unfolding resize
length-resize zero text = refl
length-resize (suc n) [] = let e = length-resize n [] in omega arith
length-resize (suc n) (x ∷ text) = let e = length-resize n text in omega arith

-- The reads that brought something.
abbrev pub arrived : List (ℕ × List ℕ) → List (List ℕ)
arrived [] = []
arrived ((n, []) ∷ reads) = arrived reads
arrived ((n, b ∷ bytes) ∷ reads) = (b ∷ bytes) ∷ arrived reads

-- No read brings more than libuv suggested.
abbrev pub Fits : ℕ × List ℕ → Type 0
Fits (n, bytes) = length bytes ≤ n

abbrev pub shown : List Packet × Reader → List Packet × TcpConnection × Option ListBuffer
shown (ps, r) = (ps, r.connection, r.buffer)

abbrev pub holds :
    TcpConnection → List Packet × ListBuffer → List Packet × TcpConnection × Option ListBuffer
holds c (ps, b) = (ps, c, some b)

module _ (copy : List ℕ → List ℕ → Option (List ℕ)) (copies : Copies copy) (is_eof : ℤ → Bool)
    (r : Reader) (listens : r.connection.on_message_set ≡ true) where
  read_event-fits :
      (n x : ℕ) (bytes : List ℕ)
      → length (x ∷ bytes) ≤ n
      → (d : List ℕ) × (read_event copy is_eof r n (ℤ.pos (length (x ∷ bytes))) (x ∷ bytes)
          ≡ some (record r { read_data = d }, calls_message (x ∷ bytes) ∷ []))
  unfolding read_event on_mesage_receive
  read_event-fits n x bytes h =
      let (d, e, same) =
        copies (x ∷ bytes) (resize n r.read_data)
          (let e = length-resize n r.read_data in omega arith) in
      (
        d,
        ap
              (answered copy is_eof (resize_data n r) (ℤ.pos (length (x ∷ bytes)))
                (length (x ∷ bytes)))
              e
            ∙ ap
                (λ b. some (
                  record r { read_data = d },
                  if b then calls_message (take (length (x ∷ bytes)) d) ∷ [] else [],
                ))
                listens
            ∙ ap (λ buf. some (record r { read_data = d }, calls_message buf ∷ [])) same,
      )

  read_event-nil :
      (n : ℕ)
      → (d : List ℕ) × (read_event copy is_eof r n (ℤ.pos 0) []
          ≡ some (record r { read_data = d }, []))
  unfolding read_event on_mesage_receive
  read_event-nil n =
      let (d, e, same) = copies [] (resize n r.read_data) (omega arith) in
      (d, ap (answered copy is_eof (resize_data n r) (ℤ.pos 0) 0) e)

-- What follows in a run.
abbrev joins : List Packet → Option (List Packet × Reader) → Option (List Packet × Reader)
joins ps o = bind o (λ (qs, r). some (ps ++ qs, r))

abbrev joins_buffer :
    List Packet → Option (List Packet × ListBuffer) → Option (List Packet × ListBuffer)
joins_buffer ps o = bind o (λ (qs, b). some (ps ++ qs, b))

abbrev behind :
    List Packet
    → List Packet × TcpConnection × Option ListBuffer
    → List Packet × TcpConnection × Option ListBuffer
behind ps (qs, c, b) = (ps ++ qs, c, b)

map-behind_nil :
    (o : Option (List Packet × TcpConnection × Option ListBuffer)) → Option.map (behind []) o ≡ o
map-behind_nil none = refl
map-behind_nil (some x) = refl

map-joins :
    (ps : List Packet) (o : Option (List Packet × Reader))
    → Option.map shown (joins ps o) ≡ Option.map (behind ps) (Option.map shown o)
unfolding bind
map-joins ps none = refl
map-joins ps (some x) = refl

map-joins_buffer :
    (c : TcpConnection) (ps : List Packet) (o : Option (List Packet × ListBuffer))
    → Option.map (holds c) (joins_buffer ps o) ≡ Option.map (behind ps) (Option.map (holds c) o)
unfolding bind
map-joins_buffer c ps none = refl
map-joins_buffer c ps (some x) = refl

-- The same packets come first.
joins-joins_buffer :
    (c : TcpConnection) (ps : List Packet) (o : Option (List Packet × Reader))
    (o' : Option (List Packet × ListBuffer))
    → Option.map shown o ≡ Option.map (holds c) o'
    → Option.map shown (joins ps o) ≡ Option.map (holds c) (joins_buffer ps o')
joins-joins_buffer c ps o o' h =
    map-joins ps o ∙ (ap (Option.map (behind ps)) h ∙ sym (map-joins_buffer c ps o'))

module _ {O : Type 0} (config : GlobalConfig ListBuffer O)
    (copy : List ℕ → List ℕ → Option (List ℕ)) (copies : Copies copy) (is_eof : ℤ → Bool) where
  abbrev continues : List (ℕ × List ℕ) → List Packet × Reader → Option (List Packet × Reader)
  continues reads (ps, r) = joins ps (serve config copy is_eof r reads)

  -- What the callback and the reads after it give.
  abbrev calls :
      Reader
      → List ℕ
      → List (List ℕ)
      → List (ℕ × List ℕ)
      → Option ListBuffer
      → Option (List Packet × TcpConnection × Option ListBuffer)
  calls r d pieces reads o =
      Option.map shown
        (bind (callback config o (record r { read_data = d }) pieces) (continues reads))

  pub serve-receive :
      (r : Reader) (b : ListBuffer) (reads : List (ℕ × List ℕ))
      → r.connection.on_message_set ≡ true
      → r.buffer ≡ some b
      → All Fits reads
      → Option.map shown (serve config copy is_eof r reads)
        ≡ Option.map (holds r.connection) (receive list_buffer config b (arrived reads))
  unfolding serve receive bind messages
  serve-receive r b [] listens holding fits = λ i. some ([], r.connection, holding i)
  serve-receive r b ((n, []) ∷ reads) listens holding (fit, fits) =
      let (d, e) = read_event-nil copy copies is_eof r listens n in
      let r2 : Reader = record r { read_data = d; buffer = some b } in
      rw e (
        ap (calls r d [] reads) holding
        ∙ (map-joins [] (serve config copy is_eof r2 reads)
            ∙ (ap (Option.map (behind [])) (serve-receive r2 b reads listens refl fits)
                ∙ map-behind_nil _)))
  serve-receive r b ((n, x ∷ bytes) ∷ reads) listens holding (fit, fits) =
      let (d, e) = read_event-fits copy copies is_eof r listens n x bytes fit in
      let b1 = (list_buffer.append b (x ∷ bytes)).0 in
      let drained = drain list_buffer config (suc (list_buffer.read_size b1)) b1 in
      rw e (
        ap (calls r d ((x ∷ bytes) ∷ []) reads) holding ∙ elim (Option-cases drained) [
          | inl stops ↦ rw stops refl
          | inr (found, e') ↦
              let (ps, b2) = found in
              let r2 : Reader = record r { read_data = d; buffer = some b2 } in
              rw (e', append-nil)
                (joins-joins_buffer r.connection ps (serve config copy is_eof r2 reads)
                  (receive list_buffer config b2 (arrived reads))
                  (serve-receive r2 b2 reads listens refl fits))
        ])
