-- ===== src/Network/Packet.antt =====
-- runtime/ext/standard/network.c: a DNS answer as data, and its bytes. Names are given by their
-- bytes, of which the resolver's functions know the length and the text.
use roadsend_php.Base.{
  ℕ, ◌+◌, ◌*◌, ◌≡◌, List, [], ◌∷◌, ◌++◌, Option, some, false, ◌==◌, length, drop,
}
use roadsend_php.Network.{t_mx, mx_text, weight_text}

-- A record of type MX or of another type: the owner's name, the class and the time to live, the
-- size of the data and, for MX, the weight and the host.
pub data Record : Type 0 where
  mx :
      (owner middle : List ℕ) (size_hi size_lo weight_hi weight_lo : ℕ) (host text : List ℕ)
      → Record
  other :
      (owner : List ℕ) (type_hi type_lo : ℕ) (middle : List ℕ) (size_hi size_lo : ℕ) (body : List ℕ)
      → Record

abbrev pub record_bytes : Record → List ℕ
record_bytes (mx owner middle size_hi size_lo weight_hi weight_lo host text) =
    owner ++ (0 ∷ t_mx ∷ middle ++ (size_hi ∷ size_lo ∷ weight_hi ∷ weight_lo ∷ host))
record_bytes (other owner type_hi type_lo middle size_hi size_lo body) =
    owner ++ (type_hi ∷ type_lo ∷ middle ++ (size_hi ∷ size_lo ∷ body))

abbrev pub records_bytes : List Record → List ℕ
records_bytes [] = []
records_bytes (x ∷ records) = record_bytes x ++ records_bytes records

-- What the lists tell of a record: its host, and its weight.
abbrev pub host_of : Record → List ℕ
host_of (mx owner middle size_hi size_lo weight_hi weight_lo host text) = mx_text text
host_of (other owner type_hi type_lo middle size_hi size_lo body) = []

abbrev pub weight_of : Record → List ℕ
weight_of (mx owner middle size_hi size_lo weight_hi weight_lo host text) =
    weight_text (weight_hi * 256 + weight_lo)
weight_of (other owner type_hi type_lo middle size_hi size_lo body) = []

abbrev pub hosts_of : List Record → List ℕ
hosts_of [] = []
hosts_of (x ∷ records) = host_of x ++ hosts_of records

abbrev pub weights_of : List Record → List ℕ
weights_of [] = []
weights_of (x ∷ records) = weight_of x ++ weights_of records

-- Questions are a name with four bytes.
abbrev pub questions_bytes : List (List ℕ × List ℕ) → List ℕ
questions_bytes [] = []
questions_bytes ((name, kind) ∷ questions) = name ++ (kind ++ questions_bytes questions)

-- The header: the counts of questions and of records, and the bytes around them.
pub record Header : Type 0 where
  pub ident : List ℕ
  pub qd_hi : ℕ
  pub qd_lo : ℕ
  pub an_hi : ℕ
  pub an_lo : ℕ
  pub more : List ℕ

-- The bytes of an answer, and what else is in the array behind them.
abbrev pub packet : Header → List (List ℕ × List ℕ) → List Record → List ℕ → List ℕ
packet header asked records behind =
    header.ident
    ++ (header.qd_hi ∷ header.qd_lo ∷ header.an_hi ∷ header.an_lo ∷ header.more
        ++ (questions_bytes asked ++ (records_bytes records ++ behind)))

-- Of one answer, in which a compressed name may point to a name before it.
module _ (skip : List ℕ → ℕ → Option ℕ) (expand : List ℕ → ℕ → Option (ℕ × List ℕ))
    (answer : List ℕ) where
  -- The bytes are a name: where they stand in the answer, `dn_skipname` tells their number.
  abbrev pub IsName : List ℕ → Type 0
  IsName name =
      (p : ℕ) (behind : List ℕ)
      → drop p answer ≡ name ++ behind
      → skip answer p ≡ some (length name)

  -- And `dn_expand` tells their number and the text.
  abbrev pub IsHost : List ℕ → List ℕ → Type 0
  IsHost host text =
      (p : ℕ) (behind : List ℕ)
      → drop p answer ≡ host ++ behind
      → expand answer p ≡ some (length host, text)

  abbrev pub IsRecord : Record → Type 0
  IsRecord (mx owner middle size_hi size_lo weight_hi weight_lo host text) =
      IsName owner × (length middle ≡ 6) × IsHost host text
  IsRecord (other owner type_hi type_lo middle size_hi size_lo body) =
      IsName owner
      × ((type_hi * 256 + type_lo == t_mx) ≡ false)
      × (length middle ≡ 6)
      × (length body ≡ size_hi * 256 + size_lo)

  abbrev pub AreRecords : List Record → Type 0
  AreRecords [] = Unit {0}
  AreRecords (x ∷ records) = IsRecord x × AreRecords records

  abbrev pub AreQuestions : List (List ℕ × List ℕ) → Type 0
  AreQuestions [] = Unit {0}
  AreQuestions ((name, kind) ∷ questions) = IsName name × (length kind ≡ 4) × AreQuestions questions
