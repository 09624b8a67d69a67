-- ===== src/Export/Screenshots.antt =====
-- `render_screenshots` of crates/panops-portable/src/markdown_exporter.rs: the images are copied and
-- shown.
use panops.Base.{
  Bool, List, Option, Result, Text, [], codes, err, if◌then◌else◌, length, map, none, ok, some, suc,
  zero, ℕ, ◌++◌, ◌>>=◌, ◌∷◌,
}
use panops.Notes.Anchoring.{Screenshot}
use panops.Notes.Sections.{MarkdownDialect}
use panops.Notes.RawTranscript.{padded}
use panops.Protocol.{ExportError}
use panops.Models.{last_piece, reversed}
use panops.Models.Download.{has_no_name, stem, without_tail}
use panops.Engine.Paths.{join}

-- A line with its end.
abbrev pub line : Text → Text
line s = s ++ 10 ∷ []

abbrev pub lines_of {ℓ} : {A : Type ℓ} → (A → Text) → List A → Text
lines_of f [] = []
lines_of f (x ∷ xs) = line (f x) ++ lines_of f xs

-- `Path::file_name` and `Path::extension`.
unfoldable pub file_name : Text → Option Text
unfolding without_tail last_piece reversed
file_name path =
    let back = without_tail (reversed [] path) in
    if has_no_name back then none else some (last_piece [] back)

unfoldable pub drop : ℕ → Text → Text
drop zero s = s
drop (suc n) [] = []
drop (suc n) (c ∷ s) = drop n s

-- The extension with its dot, empty where there is none.
unfoldable pub dotted_extension : Text → Text
unfolding stem reversed drop
dotted_extension name = elim (stem (reversed [] name)) [ none ↦ [] | some s ↦ drop (length s) name ]

-- Around the exporter: the disk as it is, and what its calls give, an error or nothing.
pub record Desk : Type 0 where
  pub exists : Text → Bool
  pub is_dir : Text → Bool
  pub create_dir_all : Text → Option Text
  pub copy : Text → Text → Option Text
  pub write : Text → Option Text
  pub debug : Text → Text

abbrev pub io_answer : Option Text → Result ExportError (Unit {0})
io_answer none = ok tt
io_answer (some e) = err (ExportError.io e)

-- The image of a screenshot, and the file that it was copied to.
unfoldable pub render_shot : Desk → ℕ → Text → Screenshot → Result ExportError (Text × Text)
unfolding file_name dotted_extension
render_shot desk section_index screenshots_dir shot = elim (file_name shot.path) [
  | none ↦ err (ExportError.render (codes "screenshot has no file_name"))
  | some original ↦
      let unique_name =
        codes "section"
        ++ (padded 2 section_index
            ++ (codes "_" ++ (padded 8 shot.ms_since_start ++ dotted_extension original))) in
      let dest = join screenshots_dir unique_name in
      let alt : Text = elim shot.caption [ none ↦ original | some c ↦ c ] in
      io_answer (desk.copy shot.path dest) >>= λ copied.
      ok (codes "![" ++ (alt ++ (codes "](screenshots/" ++ (unique_name ++ codes ")"))), dest)
]

-- All in turn; the first error ends it.
unfoldable pub render_shots :
    Desk → ℕ → Text → List Screenshot → Result ExportError (List (Text × Text))
unfolding render_shot
render_shots desk section_index screenshots_dir [] = ok []
render_shots desk section_index screenshots_dir (shot ∷ shots) =
    let later = render_shots desk section_index screenshots_dir shots in
    render_shot desk section_index screenshots_dir shot >>= λ img. later >>= λ imgs. ok (img ∷ imgs)

abbrev pub cell : Text → Text
cell img = codes "<td>" ++ (img ++ codes "</td>")

-- Two images in a row.
unfoldable pub table_rows : List Text → Text
table_rows [] = []
table_rows (a ∷ []) = line (codes "  <tr>" ++ (cell a ++ codes "</tr>"))
table_rows (a ∷ b ∷ imgs) =
    line (codes "  <tr>" ++ (cell a ++ (cell b ++ codes "</tr>"))) ++ table_rows imgs

unfoldable pub show_images : MarkdownDialect → List Text → Text
unfolding table_rows
show_images MarkdownDialect.notion_enhanced imgs =
    10 ∷ line (codes "<table>") ++ (table_rows imgs ++ line (line (codes "</table>")))
show_images MarkdownDialect.basic imgs = lines_of line imgs

abbrev pub Rendered : Type 0
Rendered = Text × List Text

unfoldable pub render_screenshots :
    Desk → List Screenshot → ℕ → MarkdownDialect → Text → Result ExportError Rendered
unfolding render_shots show_images
render_screenshots desk shots section_index dialect screenshots_dir =
    (if desk.exists screenshots_dir then ok tt else io_answer (desk.create_dir_all screenshots_dir))
    >>= λ made. render_shots desk section_index screenshots_dir shots >>= λ imgs.
        ok (show_images dialect (map (λ i. i.0) imgs), map (λ i. i.1) imgs)
