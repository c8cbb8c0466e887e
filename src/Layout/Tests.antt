-- ===== src/Layout/Tests.antt =====
-- The layout of a text with a tab on a screen of 40 by 48 pixels, with a font of 8 by 16.
use ewlibs.Base.{
  ltb, leb, length, drop, ℕ, ◌*◌, ◌≤◌, ◌<◌, ◌≡◌, refl, ◌⊎◌, true, none, some, List, [], ◌∷◌, map,
  arith, inl, inr, false, ◌==◌, if◌then◌else◌, Bool-cases, sym, subst, ◌||◌,
}
use ewlibs.Base.Every.{All}
use ewlibs.Layout.{FilterIo, filter_io_init}
use ewlibs.Layout.Glyphs.{FontGlyphInfo, Font}
use ewlibs.Layout.Decoder.{TextDecoderContext, text_decoder_filter}
use ewlibs.Layout.Decoding.{Serving}
use ewlibs.Layout.Tabs.{tab_expansion_init, tab_expand, tab_expansion_filter}
use ewlibs.Layout.Expanding.{
  Within, Splits, last_or, tab_expansion_filter-bounds, tab_expand-resumes,
}
use ewlibs.Layout.Marks.{MarkFilterContext, mark_filter_filter}
use ewlibs.Layout.Selecting.{mark_filter_filter-selected}
use ewlibs.Layout.Pen.{ScreenModeContext, start_context, screen_mode_init}
use ewlibs.Layout.Screening.{screen_mode_filter}
use ewlibs.Layout.Room.{Fonts, Metrics, InRoom, screen_mode_init-InRoom}
use ewlibs.Layout.Showing.{Laid}
use ewlibs.Layout.Ending.{screen_mode_filter-Laid}
use ewlibs.Layout.Building.{Env, ModeCtx, build_screen_layout}
use ewlibs.Layout.Finishing.{Start, build_screen_layout-Fits}
use ewlibs.Codec.Decoding.{text_decoder_filter-ascii_reader}
use ewlibs.Codec.Reading.{ascii_reader, ascii_reader-Reads}
use ewlibs.Codec.Tests.{three_bytes, read_of, read_of-ReadsBytes, blank_iovc}
use ewlibs.Screen.{Floats, zero_cpinfo}
use ewlibs.Screen.Grid.{Screen, new_screen, screen_alloc, screen_resize, each_line}
use ewlibs.Screen.Bounds.{Fits}
use ewlibs.Screen.Edits.{allocated, Reach-Fits}

abbrev quarters : Floats ℕ
quarters = record {
  nought = 0;
  quarter = 1;
  unit = 4;
  above = λ y v. ltb v (4 * y);
  at_least = λ x v. leb v (4 * x);
}

abbrev box : FontGlyphInfo
box = record {
  width = 8;
  height = 16;
  hori_bearing_x = 0;
  hori_bearing_y = 0;
  hori_advance = 8;
  vert_bearing_x = 0;
  vert_bearing_y = 0;
  vert_advance = 16;
}

-- A font like the program's: it has no glyph for 0, nor for what is not a letter of ASCII, and then
-- leaves the metrics as they are.
abbrev boxes : Font
boxes cp info = if (cp == 0) || leb 127 cp then (false, info) else (true, box)

boxes-Fonts : Fonts 8 16 boxes box
boxes-Fonts = record {
  has_space = refl;
  known = λ cp least e. subst (Metrics 8 16 cp) (sym (same cp)) (box-Metrics cp);
  lacking = λ cp least e. subst (Metrics 8 16 65533) (sym (same cp)) (box-Metrics 65533);
  width = (omega arith, omega arith);
  height = (omega arith, omega arith);
}
  where
    same : (cp : ℕ) → (boxes cp box).1 ≡ box
    same cp = elim (Bool-cases ((cp == 0) || leb 127 cp)) [ inl e ↦ rw e refl | inr e ↦ rw e refl ]

    box-Metrics : (cp : ℕ) → Metrics 8 16 cp box
    box-Metrics cp = record {
      wide = omega arith;
      narrow = omega arith;
      tall = omega arith;
      space = λ e. (refl, refl);
    }

abbrev tab_env : Env ℕ
tab_env = record {
  floats = quarters;
  device = record { ft = boxes; to_float = λ n. 4 * n; fresh = box };
  cache = λ cp. none;
  buffer_size = 3;
  read_forward = ascii_reader (read_of three_bytes);
  sort = λ marks. marks;
  buffer_marks = record { moving = 2 ∷ []; fixed = [] };
  view_marks = record { moving = []; fixed = [] };
  fresh_io = filter_io_init;
  fresh_iovc = blank_iovc;
  stack_1 = λ i. filter_io_init;
  stack_2 = λ i. filter_io_init;
}

abbrev blank_screen : Screen ℕ
blank_screen = elim (screen_alloc quarters 2 3 40 48) [
  | none ↦ new_screen (zero_cpinfo quarters)
  | some s ↦ s
]

blank-Fits : Fits blank_screen
unfolding screen_alloc screen_resize each_line
blank-Fits = Reach-Fits quarters (allocated 2 3 40 48 (omega arith) (omega arith) refl)

from_start : Start {F = ℕ} 3 none
from_start = record { used = refl; within = omega arith; split = λ cpi e. cc }

build_screen_layout-Fits_example :
    (out' : Screen ℕ) × (build_screen_layout tab_env none blank_screen ≡ some out')
    × Fits out'
    × (out'.buffer_size ≡ 3)
build_screen_layout-Fits_example =
    build_screen_layout-Fits tab_env 8 16 boxes-Fonts (omega arith)
      (ascii_reader-Reads three_bytes (read_of three_bytes) (read_of-ReadsBytes three_bytes))
      (λ cp info e. cc) refl refl none from_start blank_screen blank-Fits
      (unfold screen_alloc screen_resize each_line in omega arith)
      (unfold screen_alloc screen_resize each_line in omega arith)
      (unfold screen_alloc screen_resize each_line in omega arith)
      (unfold screen_alloc screen_resize each_line in omega arith)

-- A screen of five columns and three lines, and the pen at its start.
abbrev wide_screen : Screen ℕ
wide_screen = elim (screen_alloc quarters 3 5 40 48) [
  | none ↦ new_screen (zero_cpinfo quarters)
  | some s ↦ s
]

wide-Fits : Fits wide_screen
unfolding screen_alloc screen_resize each_line
wide-Fits = Reach-Fits quarters (allocated 3 5 40 48 (omega arith) (omega arith) refl)

abbrev first_pen : ScreenModeContext ℕ
first_pen = start_context wide_screen box wide_screen (λ cp. none)

first_pen-InRoom : InRoom 8 16 first_pen
first_pen-InRoom = record {
  fits = wide-Fits;
  space = (refl, refl);
  wide = unfold screen_alloc screen_resize each_line in omega arith;
  tall = unfold screen_alloc screen_resize each_line in omega arith;
  small = (
    unfold screen_alloc screen_resize each_line in omega arith,
    unfold screen_alloc screen_resize each_line in omega arith,
  );
  left = (omega arith, omega arith);
  top = (omega arith, omega arith);
  cached = λ cp info e. cc;
}

-- A letter, and a tab after it.
abbrev letter : FilterIo
letter = record filter_io_init { valid = true; offset = 0; cp = 97; real_cp = 97; cp_index = 0 }

abbrev tab : FilterIo
tab = record filter_io_init { valid = true; offset = 1; cp = 9; real_cp = 9; cp_index = 1 }

screen_mode_filter-Laid_example :
    (cells : List FilterIo) × (rest : List FilterIo) × (ctx' : ScreenModeContext ℕ)
    × (screen_mode_filter tab_env.device (letter ∷ letter ∷ []) first_pen tab_env.stack_1
        ≡ some (cells, rest, ctx'))
    × InRoom 8 16 ctx'
    × Laid ctx'.out (letter ∷ letter ∷ []) cells
screen_mode_filter-Laid_example =
    screen_mode_filter-Laid 8 16 tab_env.device boxes-Fonts (letter ∷ letter ∷ []) first_pen
      tab_env.stack_1 first_pen-InRoom

screen_mode_init-InRoom_example :
    (ctx : ScreenModeContext ℕ) × (screen_mode_init quarters boxes box (λ cp. none) blank_screen
      ≡ some ctx)
    × InRoom 8 16 ctx
    × (ctx.y ≡ 0)
screen_mode_init-InRoom_example =
    screen_mode_init-InRoom 8 16 boxes box boxes-Fonts quarters (λ cp. none) blank_screen
      (λ cp info e. cc) (unfold screen_alloc screen_resize each_line in omega arith)
      (unfold screen_alloc screen_resize each_line in omega arith)

abbrev first_decoder : TextDecoderContext
first_decoder = record {
  next_offset = 0;
  buffer_size = 3;
  end_of_buffer = record filter_io_init { cp = 32; end_of_pipe = true };
  iovc = blank_iovc;
  iocnt = 1024;
  split_count = 0;
  split_flag = 0;
  cur_cp_index = 0;
}

first_decoder-Serving : Serving 3 first_decoder
first_decoder-Serving = record {
  whole = refl;
  reached = omega arith;
  asked = refl;
  blank = refl;
  closing = refl;
  split = omega arith;
}

text_decoder_filter-ascii_reader_example :
    (cells : List FilterIo) × (ctx' : TextDecoderContext) × (text_decoder_filter
        (ascii_reader (read_of three_bytes))
        first_decoder
        tab_env.stack_1
      ≡ some (cells, ctx'))
    × ((0 < length cells)
        × (length cells ≤ 1024)
        × All Splits cells
        × (((d : FilterIo) → (last_or d cells).end_of_pipe ≡ true)
            ⊎ (Serving 3 ctx' × (0 < ctx'.next_offset))))
text_decoder_filter-ascii_reader_example =
    text_decoder_filter-ascii_reader three_bytes (read_of three_bytes) first_decoder tab_env.stack_1
      (read_of-ReadsBytes three_bytes) (omega arith) first_decoder-Serving

abbrev first_modes : ModeCtx ℕ
first_modes = record {
  decoder = first_decoder;
  tabs = tab_expansion_init;
  marks = record { offset = []; off_index = 0; skip_pass = true };
  screen = first_pen;
}

tab_expansion_filter-bounds_example :
    (2 ≤ length (tab_expansion_filter tab_expansion_init (letter ∷ tab ∷ []) tab_env.stack_1 0))
    × (length (tab_expansion_filter tab_expansion_init (letter ∷ tab ∷ []) tab_env.stack_1 0) ≤ 16)
    × All Within (tab_expansion_filter tab_expansion_init (letter ∷ tab ∷ []) tab_env.stack_1 0)
    × ((last_or letter (
          tab_expansion_filter tab_expansion_init
            (letter ∷ tab ∷ [])
            tab_env.stack_1
            0)).end_of_pipe
        ≡ false)
tab_expansion_filter-bounds_example =
    tab_expansion_filter-bounds (letter ∷ tab ∷ []) tab_env.stack_1 0 letter
      ((λ e. omega arith), ((λ e. omega arith), tt))

tab_expand-resumes_example :
    map (λ c. c.split_count) (tab_expand 8 (record tab { split_count = 5 }) tab_env.stack_1 0)
    ≡ drop 4 (map (λ c. c.split_count) (tab_expand 8 tab tab_env.stack_2 7))
tab_expand-resumes_example =
    tab_expand-resumes tab 5 tab_env.stack_1 tab_env.stack_2 0 7 refl refl (omega arith)
      (omega arith) (omega arith)

-- A mark at the second of two letters.
abbrev next_letter : FilterIo
next_letter = record letter { offset = 4 }

abbrev one_mark : MarkFilterContext
one_mark = record { offset = 2 ∷ 4 ∷ []; off_index = 1; skip_pass = false }

mark_filter_filter-selected_example :
    (mark_filter_filter one_mark (letter ∷ next_letter ∷ [])).0
    ≡ letter ∷ record next_letter { is_selected = true } ∷ []
mark_filter_filter-selected_example =
    mark_filter_filter-selected one_mark (letter ∷ next_letter ∷ []) refl (tt, tt)
      ((omega arith, tt), (tt, tt)) (inr (omega arith, inl (refl, tt)))
