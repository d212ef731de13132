-- ===== src/Archive/Decode/Report.antt =====
-- The messages of the collectors' format `{now},{peer},{msg_type},{msg_dir},{msg_size},...`, with a
-- printer that knows nothing of the decoder.
use gossip_observer.Archive.Decode.{intra_delim}
use gossip_observer.Archive.Decode.Numbers.{print_number, print_number-FreeOf}
use gossip_observer.Archive.Records.{Feed, ExportedGossip}
use gossip_observer.Prelude.{
  ℕ, ◌^◌, ◌≡◌, ◌≢◌, Bool, true, List, [], ◌∷◌, Option, none, some, ltb, All, Any, inl, inr, arith,
  subst,
}
use gossip_observer.Prelude.Split.{join, FreeOf}
use gossip_observer.Prelude.Text.{Text, codes}

-- How the crates of the collector print what the archiver's crates parse.
pub record Printer (f : Feed) : Type 1 where
  pub Direction : Type 0
  pub code : Direction → ℕ
  pub print_direction : Direction → Text
  pub parse-print_direction :
      (d : Direction) → f.parse_direction (print_direction d) ≡ some (code d)
  pub direction-FreeOf : (d : Direction) → FreeOf intra_delim (print_direction d)
  pub print_micros : f.DateTime → Text
  pub parse-print_micros : (t : f.DateTime) → f.parse_micros (print_micros t) ≡ some t
  pub micros-cons : (t : f.DateTime) → (c : ℕ) × (s : Text) × (print_micros t ≡ c ∷ s)
  pub micros-FreeOf : (t : f.DateTime) → FreeOf intra_delim (print_micros t)

-- The names of the message types, with the numbers that the database holds.
abbrev pub type_names : List (Text × ℕ)
type_names =
    (codes "ca", 1) ∷ (codes "na", 2) ∷ (codes "cu", 3) ∷ (codes "ping", 4) ∷ (codes "pong", 5) ∷ []

module _ (f : Feed) (p : Printer f) where
  -- What a collector reports.
  pub record Report : Type 0 where
    pub now : f.DateTime
    pub peer : Text
    pub type_name : Text
    pub type_number : ℕ
    pub dir : p.Direction
    pub size : ℕ
    pub inner_hash : ℕ
    pub msg : Text
    pub sent : Option f.DateTime
    pub node : Option Text
    pub scid : Option ℕ
    pub collector : Text

  abbrev pub print_optional {ℓ} : {A : Type ℓ} → (A → Text) → Option A → Text
  print_optional print none = []
  print_optional print (some a) = print a

  abbrev pub first_part : Report → Text
  first_part r = p.print_micros r.now

  abbrev pub later_parts : Report → List Text
  later_parts r =
      r.peer
      ∷ r.type_name
      ∷ p.print_direction r.dir
      ∷ print_number r.size
      ∷ print_number r.inner_hash
      ∷ r.msg
      ∷ print_optional p.print_micros r.sent
      ∷ print_optional (λ node. node) r.node
      ∷ print_optional print_number r.scid
      ∷ r.collector
      ∷ []

  abbrev pub print_report : Report → Text
  print_report r = join intra_delim (first_part r ∷ later_parts r)

  -- What is kept of it.
  abbrev pub archived : Report → ExportedGossip f
  archived r = record {
    net_timestamp = r.now;
    orig_timestamp = r.sent;
    collector = r.collector;
    peer = r.peer;
    peer_hash = f.xxh3 r.peer;
    orig_node = r.node;
    msg_type = r.type_number;
    msg_dir = p.code r.dir;
    msg_size = r.size;
    scid = r.scid;
    msg = r.msg;
    msg_hash = f.xxh3 r.msg;
    inner_hash = r.inner_hash;
  }

  abbrev pub scid_fits : Option ℕ → Bool
  scid_fits none = true
  scid_fits (some n) = ltb n (2 ^ 64)

  -- A text that is given is not empty.
  abbrev pub IsGiven : Option Text → Type 0
  IsGiven none = Unit
  IsGiven (some t) = t ≢ []

  -- No text holds a comma.
  abbrev pub IsPlain : Report → Type 0
  IsPlain r =
      FreeOf intra_delim r.peer
      × FreeOf intra_delim r.msg
      × FreeOf intra_delim (print_optional (λ node. node) r.node)
      × FreeOf intra_delim r.collector

  names-FreeOf :
      (name : Text) (n : ℕ) → Any (λ q. q ≡ (name, n)) type_names → FreeOf intra_delim name
  names-FreeOf name n (inl e) = subst (λ q. FreeOf intra_delim q.0) e (ground arith)
  names-FreeOf name n (inr (inl e)) = subst (λ q. FreeOf intra_delim q.0) e (ground arith)
  names-FreeOf name n (inr (inr (inl e))) = subst (λ q. FreeOf intra_delim q.0) e (ground arith)
  names-FreeOf name n (inr (inr (inr (inl e)))) =
      subst (λ q. FreeOf intra_delim q.0) e (ground arith)
  names-FreeOf name n (inr (inr (inr (inr (inl e))))) =
      subst (λ q. FreeOf intra_delim q.0) e (ground arith)
  names-FreeOf name n (inr (inr (inr (inr (inr e))))) = absurd e

  micros_optional-FreeOf :
      (o : Option f.DateTime) → FreeOf intra_delim (print_optional p.print_micros o)
  micros_optional-FreeOf none = tt
  micros_optional-FreeOf (some t) = p.micros-FreeOf t

  scid-FreeOf : (o : Option ℕ) → FreeOf intra_delim (print_optional print_number o)
  scid-FreeOf none = tt
  scid-FreeOf (some n) = print_number-FreeOf n

  pub parts-FreeOf :
      (r : Report)
      → Any (λ q. q ≡ (r.type_name, r.type_number)) type_names
      → IsPlain r
      → All (FreeOf intra_delim) (first_part r ∷ later_parts r)
  parts-FreeOf r k (peer, msg, node, collector) = (
    p.micros-FreeOf r.now,
    (
      peer,
      (
        names-FreeOf r.type_name r.type_number k,
        (
          p.direction-FreeOf r.dir,
          (
            print_number-FreeOf r.size,
            (
              print_number-FreeOf r.inner_hash,
              (msg, (micros_optional-FreeOf r.sent, (node, (scid-FreeOf r.scid, (collector, tt))))),
            ),
          ),
        ),
      ),
    ),
  )
