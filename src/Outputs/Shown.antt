-- ===== src/Outputs/Shown.antt =====
-- What f-strings put into the lines of the reports.
use hang_analyzer.Prelude.{
  ℕ, zero, suc, ◌-◌, Bool, true, false, Option, none, some, List, [], ◌∷◌, ◌++◌, length, Text,
  codes, decimal,
}
use hang_analyzer.Analyzer.Dependencies.{Node, record_node, wait_node}

-- The parts of an f-string, one behind the other.
abbrev pub f_string : List Text → Text
f_string [] = []
f_string (t ∷ ts) = t ++ f_string ts

unfoldable pub show_bool : Bool → Text
show_bool true = codes "True"
show_bool false = codes "False"

unfoldable pub show_option : Option ℕ → Text
unfolding decimal
show_option none = codes "None"
show_option (some n) = decimal n

-- `n` spaces
spaces : ℕ → Text
spaces zero = []
spaces (suc n) = 32 ∷ spaces n

-- `{t:<w}` and `{t:>w}`
unfoldable pub padded_right : ℕ → Text → Text
unfolding spaces
padded_right w t = t ++ spaces (w - length t)

unfoldable pub padded_left : ℕ → Text → Text
unfolding spaces
padded_left w t = spaces (w - length t) ++ t

-- `sep.join(texts)`
unfoldable pub join : Text → List Text → Text
join sep [] = []
join sep (t ∷ []) = t
join sep (t ∷ u ∷ ts) = t ++ (sep ++ join sep (u ∷ ts))

unfoldable pub decimals : List ℕ → List Text
unfolding decimal
decimals [] = []
decimals (n ∷ ns) = decimal n ∷ decimals ns

-- `str` of a list of numbers
unfoldable pub show_list : List ℕ → Text
unfolding join decimals
show_list ns = codes "[" ++ (join (codes ", ") (decimals ns) ++ codes "]")

-- The text of a node of the graph of dependencies.
unfoldable pub show_node : Node → Text
unfolding decimal
show_node (record_node rank stream seq) =
    f_string
      (codes "r" ∷ decimal rank ∷ codes ":s" ∷ decimal stream ∷ codes ":record:" ∷ decimal seq ∷ [])
show_node (wait_node rank stream seq) =
    f_string
      (codes "r" ∷ decimal rank ∷ codes ":s" ∷ decimal stream ∷ codes ":wait:" ∷ decimal seq ∷ [])

unfoldable pub show_nodes : List Node → List Text
unfolding show_node
show_nodes [] = []
show_nodes (n ∷ ns) = show_node n ∷ show_nodes ns
