-- ===== src/Layout/Building.antt =====
-- `build_layout` and `build_screen_layout` of app/eedit/core/text_layout.cpp: the filters, in a pipe
-- of two arrays. `none` is a fault, or no more fuel.
use ewlibs.Base.{
  ltb, ◌==◌, if◌then◌else◌, ◌>>=◌, length, replicate, ℕ, zero, suc, ◌+◌, ◌-◌, Bool, true, false,
  not, ◌&&◌, ◌||◌, Option, none, some, List, [], ◌∷◌, ◌++◌,
}
use ewlibs.Layout.{FilterIo, filter_io_init, Buffer, overlay, CodecIo}
use ewlibs.Layout.Decoder.{ReadForward, TextDecoderContext, text_decoder_init, text_decoder_filter}
use ewlibs.Layout.Glyphs.{Cache}
use ewlibs.Layout.Tabs.{TabExpansionContext, tab_expansion_init, tab_expansion_filter}
use ewlibs.Layout.Gathering.{MarkLists, gather_marks, mark_get_offsets}
use ewlibs.Layout.Marks.{MarkFilterContext, mark_filter_init, mark_filter_filter}
use ewlibs.Layout.Pen.{ScreenModeContext, screen_mode_init}
use ewlibs.Layout.Screening.{Device, screen_mode_filter}
use ewlibs.Screen.{Floats, CodepointInfo}
use ewlibs.Screen.Grid.{Screen, screen_reset}

-- What the layout of one view uses of the other components: the buffer's size and codec, the marks of
-- the buffer and of the view, the font and the cache; and what is in memory before it is set.
pub record Env (F : Type 0) : Type 0 where
  pub floats : Floats F
  pub device : Device F
  pub cache : Cache
  pub buffer_size : ℕ
  pub read_forward : ReadForward
  pub sort : List ℕ → List ℕ
  pub buffer_marks : MarkLists
  pub view_marks : MarkLists
  pub fresh_io : FilterIo
  pub fresh_iovc : ℕ → CodecIo
  pub stack_1 : Buffer
  pub stack_2 : Buffer

-- The contexts of the four filters of `mode_list`.
pub record ModeCtx (F : Type 0) : Type 0 where
  pub decoder : TextDecoderContext
  pub tabs : TabExpansionContext
  pub marks : MarkFilterContext
  pub screen : ScreenModeContext F

pub data Mode : Type 0 where
  text_decoder : Mode
  tab_expansion_mode : Mode
  mark_filter : Mode
  screen_mode : Mode

abbrev pub mode_list : List Mode
mode_list = text_decoder ∷ tab_expansion_mode ∷ mark_filter ∷ screen_mode ∷ []

-- The two arrays, `nr_in`, and `end_of_pipe`.
pub record Pipe : Type 0 where
  pub pin : Buffer
  pub nr_in : ℕ
  pub pout : Buffer
  pub end_of_pipe : Bool

-- The first n elements of an array.
unfoldable pub elements : ℕ → Buffer → List FilterIo
elements zero buffer = []
elements (suc n) buffer = buffer 0 ∷ elements n (λ i. buffer (suc i))

-- What the round does with the `nr_out` elements of a filter, unless it writes none.
abbrev pub pass_on : List FilterIo → List FilterIo → Pipe → Pipe
pass_on cells rest pipe =
    let pout = overlay (cells ++ rest) pipe.pout in
    record {
      pin = pout;
      nr_in = length cells;
      pout = pipe.pin;
      end_of_pipe = pipe.end_of_pipe || (pout (length cells - 1)).end_of_pipe;
    }

-- `pin[nr_in - 1].quit`, when there is one.
abbrev pub quits_pipe : Pipe → Bool
quits_pipe pipe = not (pipe.nr_in == 0) && (pipe.pin (pipe.nr_in - 1)).quit

module _ {F : Type 0} where
  -- `mode->filter(&ctx, tmp_ctx, pin, nr_in, pout, MAX_OUT, &nr_out)`: the elements that it writes,
  -- the second part beyond `nr_out`, and the contexts.
  unfoldable pub run_filter :
      Env F
      → Mode
      → ModeCtx F
      → List FilterIo
      → Buffer
      → Option (List FilterIo × List FilterIo × ModeCtx F)
  run_filter env text_decoder ctx ios out =
      text_decoder_filter env.read_forward ctx.decoder out >>= λ (cells, c).
      some (cells, [], record ctx { decoder = c })
  run_filter env tab_expansion_mode ctx ios out =
      some (tab_expansion_filter ctx.tabs ios out 0, [], ctx)
  run_filter env mark_filter ctx ios out =
      let (cells, c) = mark_filter_filter ctx.marks ios in
      some (cells, [], record ctx { marks = c })
  run_filter env screen_mode ctx ios out =
      screen_mode_filter env.device ios ctx.screen out >>= λ (cells, rest, c).
      some (cells, rest, record ctx { screen = c })

  -- The loop over the filters.
  unfoldable pub run_modes : Env F → List Mode → ModeCtx F → Pipe → Option (ModeCtx F × Pipe)
  run_modes env [] ctx pipe = some (ctx, pipe)
  run_modes env (mode ∷ modes) ctx pipe =
      run_filter env mode ctx (elements pipe.nr_in pipe.pin) pipe.pout >>= λ (cells, rest, ctx').
      let next = run_modes env modes ctx' (pass_on cells rest pipe) in
      if ltb 8192 (length cells)
      then none
      else if length cells == 0
      then some (ctx', record pipe { pout = overlay rest pipe.pout })
      else next

  -- `while (end_of_pipe == false)`
  unfoldable pub layout_loop : Env F → ℕ → ModeCtx F → Pipe → Option (ModeCtx F × Pipe)
  layout_loop env zero ctx pipe = none
  layout_loop env (suc fuel) ctx pipe =
      if pipe.end_of_pipe
      then some (ctx, pipe)
      else run_modes env mode_list ctx (record pipe { nr_in = 0 }) >>= λ (ctx', pipe').
          let next = layout_loop env fuel ctx' pipe' in
          if quits_pipe pipe' then some (ctx', pipe') else next

  -- The contexts of the filters at the start.
  abbrev pub start_modes :
      Env F → ℕ → Option (CodepointInfo F) → List ℕ → ScreenModeContext F → ModeCtx F
  start_modes env start_offset start_cpi offsets c = record {
    decoder = text_decoder_init start_offset env.buffer_size start_cpi env.fresh_io env.fresh_iovc;
    tabs = tab_expansion_init;
    marks = mark_filter_init env.sort start_offset offsets;
    screen = c;
  }

  -- `mode->init(&ctx, &tmp_ctx)` for each filter.
  unfoldable pub init_modes : Env F → ℕ → Option (CodepointInfo F) → Screen F → Option (ModeCtx F)
  init_modes env start_offset start_cpi out =
      mark_get_offsets (gather_marks env.buffer_marks env.view_marks) >>= λ offsets.
      screen_mode_init env.floats env.device.ft env.device.fresh env.cache out >>= λ c.
      some (start_modes env start_offset start_cpi offsets c)

  -- The arrays hold the default in their first 1024 elements.
  abbrev pub start_pipe : Env F → Pipe
  start_pipe env = record {
    pin = overlay (replicate 1024 filter_io_init) env.stack_1;
    nr_in = 0;
    pout = overlay (replicate 1024 filter_io_init) env.stack_2;
    end_of_pipe = false;
  }

  -- `build_layout(ctx)`. The fuel is enough
  -- as each round but the last one reads on in the buffer.
  unfoldable pub build_layout : Env F → ℕ → Option (CodepointInfo F) → Screen F → Option (Screen F)
  build_layout env start_offset start_cpi out = init_modes env start_offset start_cpi out >>= λ ctx.
      layout_loop env (env.buffer_size + 2) ctx (start_pipe env) >>= λ (ctx', pipe).
      some ctx'.screen.out

  -- The offset where the layout starts.
  abbrev pub layout_start : Option (CodepointInfo F) → ℕ
  layout_start none = 0
  layout_start (some cpi) = cpi.offset

  abbrev pub is_used : Option (CodepointInfo F) → Bool
  is_used none = true
  is_used (some cpi) = cpi.used

  -- `build_screen_layout(io_ctx, view, start_cpi, out)`, with the constructor of its context;
  -- `start_cpi` is not the first or the last cell of `out`, which are reset.
  unfoldable pub build_screen_layout :
      Env F → Option (CodepointInfo F) → Screen F → Option (Screen F)
  build_screen_layout env start_cpi out =
      if not (is_used start_cpi) || (out.max_l == 0) || (out.max_c == 0)
      then none
      else screen_reset env.floats out >>= λ out'.
          build_layout env (layout_start start_cpi) start_cpi out' >>= λ out''.
          some (record out'' { buffer_size = env.buffer_size })
