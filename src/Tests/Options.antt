-- ===== src/Tests/Options.antt =====
-- Runs of the option checks of cache2_hal_aio.
use ascend_hal_sharing_probe.Prelude.{refl}
use ascend_hal_sharing_probe.Text.{bytes_of, same_text}
use ascend_hal_sharing_probe.Aio.Options.{AioOptions, aio_options, is_refused}
use ascend_hal_sharing_probe.Aio.Options.Checked.{IsChecked, is_refused-IsChecked}

abbrev tensor_options : AioOptions
tensor_options = record aio_options {
  dir = bytes_of "/tmp";
  engine = bytes_of "psync";
  tensor_bytes = 1048576;
}

is_refused-IsChecked_example : IsChecked tensor_options
unfolding is_refused same_text
is_refused-IsChecked_example = is_refused-IsChecked tensor_options refl
